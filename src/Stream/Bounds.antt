-- ===== src/Stream/Bounds.antt =====
-- How long the messages of src/host/ws_stream.c get.
use edgehost.Prelude.{
  ℕ, zero, suc, ◌+◌, ◌≤◌, ◌<◌, ◌≡◌, refl, arith, Bool, true, false, ◌||◌, List, [], ◌∷◌, ◌++◌,
  Option, none, some, some_inj, leb, ltb, ◌==◌, if◌then◌else◌, length, get_or, replicate, All,
  All-set, All-append, ap, sym, ◌∙◌, subst, Bool-cases, inl, inr,
}
use edgehost.Prelude.Int.{pos}
use edgehost.Prelude.Text.{Bytes}
use edgehost.Stream.{
  Hub, hub_create, slot_of, take_pending, Taken, refused, nothing, message, pending_max,
}
use edgehost.Stream.Message.{
  msg_max, fitted, head_text, tail_text, some_value, id_text, format_value, format_state_changed,
}
use edgehost.Stream.Mailbox.{Mailbox, trim, deliver, fetch, fetch_from}
use edgehost.Stream.Run.{
  Call, subscribes, unsubscribes, asks, takes, broadcasts, Reply, done, sent, got, step, empty_box,
  deliver_all, deliver_text, box_subscribe, box_unsubscribe, box_asks, box_fetch, box_step,
  boxes_of, IsHub,
}
use edgehost.Stream.Refine.{step_refines, length-boxes, slot_count, hub_create-boxes}

fitted-bound : (out_cap : ℕ) (s m : Bytes) → fitted out_cap s ≡ some m → length m < out_cap
fitted-bound out_cap s m h = elim (Bool-cases (leb out_cap (length s))) [
  | inl long ↦ absurd (cc (rw long at h))
  | inr fits ↦ subst (λ t. length t < out_cap) (some_inj (rw fits at h)) (ground (arith, fits))
]

format_value-bound :
    (out_cap : ℕ) (head : Bytes) (v : Option Bytes) (tail m : Bytes)
    → format_value out_cap head v tail ≡ some m
    → length m < out_cap
unfolding format_value
format_value-bound out_cap head none tail m h = fitted-bound out_cap _ m h
format_value-bound out_cap head (some v) tail m h =
    elim (Bool-cases (leb out_cap (length head) || leb out_cap (length head + length v + 40))) [
      | inl long ↦ absurd (cc (rw long at h))
      | inr fits ↦ fitted-bound out_cap (head ++ (v ++ tail)) m (rw fits at h)
    ]

-- A message that `edge_ws_format_state_changed` writes leaves room for its NUL.
pub format_state_changed-bound :
    (out_cap : ℕ) (ns key op : Bytes) (value request_id : Option Bytes) (m : Bytes)
    → format_state_changed out_cap ns key op value request_id ≡ some m
    → length m < out_cap
unfolding format_state_changed
format_state_changed-bound out_cap ns key op value request_id m h =
    elim (Bool-cases (ltb out_cap 32)) [
      | inl small ↦ absurd (cc (rw small at h))
      | inr wide ↦
          format_value-bound out_cap (head_text ns key op) (some_value value)
            (tail_text (id_text request_id)) m (rw wide at h)
    ]

abbrev IsShort : Bytes → Type 0
IsShort m = length m < msg_max

abbrev HasShort : Mailbox → Type 0
HasShort b = All IsShort b.queue

trim-IsShort : (w : List Bytes) → All IsShort w → All IsShort (trim w)
unfolding trim
trim-IsShort [] h = tt
trim-IsShort (m ∷ w) h = elim (Bool-cases (leb pending_max (length (m ∷ w)))) [
  | inl full ↦ rw full h.1
  | inr room ↦ rw room h
]

abbrev box : Bool → List Bytes → Mailbox
box on w = record { active = on; queue = w }

deliver-short :
    (on alloc : Bool) (w : List Bytes) (msg : Bytes)
    → All IsShort w
    → IsShort msg
    → HasShort (deliver (box on w) msg alloc).1
unfolding deliver
deliver-short true true w msg h k =
    All-append IsShort (trim w) (msg ∷ []) (trim-IsShort w h) (k, tt)
deliver-short true false w msg h k = trim-IsShort w h
deliver-short false true w msg h k = h
deliver-short false false w msg h k = h

deliver_all-short :
    (msg : Bytes) (alloc : ℕ → Bool) (i : ℕ) (boxes : List Mailbox)
    → IsShort msg
    → All HasShort boxes
    → All HasShort (deliver_all msg alloc i boxes).1
unfolding deliver_all
deliver_all-short msg alloc i [] k h = tt
deliver_all-short msg alloc i (b ∷ boxes) k h = (
  deliver-short b.active (alloc i) b.queue msg h.0 k,
  deliver_all-short msg alloc (i + 1) boxes k h.1,
)

deliver_text-short :
    (boxes : List Mailbox) (made : Option Bytes) (alloc : ℕ → Bool)
    → ((m : Bytes) → made ≡ some m → IsShort m)
    → All HasShort boxes
    → All HasShort (deliver_text boxes made alloc).1
deliver_text-short boxes none alloc k h = h
deliver_text-short boxes (some msg) alloc k h = deliver_all-short msg alloc 0 boxes (k msg refl) h

fetch-short :
    (on : Bool) (w : List Bytes) (out_cap : ℕ)
    → All IsShort w
    → HasShort (fetch (box on w) out_cap).1
unfolding fetch fetch_from
fetch-short false w out_cap h = h
fetch-short true [] out_cap h = h
fetch-short true (m ∷ w) out_cap h = elim (Bool-cases (ltb out_cap (length m + 1))) [
  | inl small ↦ rw small h
  | inr fits ↦ rw fits h.1
]

abbrev pub is_refused : Taken → Bool
is_refused refused = true
is_refused nothing = false
is_refused (message m) = false

-- A buffer of the largest message's size gets whatever waits.
fetch_wide :
    (on : Bool) (w : List Bytes) (out_cap : ℕ)
    → msg_max ≤ out_cap
    → All IsShort w
    → is_refused (fetch (box on w) out_cap).0 ≡ false
unfolding fetch fetch_from
fetch_wide false w out_cap wide h = refl
fetch_wide true [] out_cap wide h = refl
fetch_wide true (m ∷ w) out_cap wide h =
    let fits : ltb out_cap (length m + 1) ≡ false = ground (arith, wide, h.0) in rw fits refl

box_at-short :
    (boxes : List Mailbox) (i : ℕ) → All HasShort boxes → HasShort (get_or boxes i empty_box)
box_at-short [] i h = tt
box_at-short (b ∷ boxes) zero h = h.0
box_at-short (b ∷ boxes) (suc i) h = box_at-short boxes i h.1

box_step-short :
    (boxes : List Mailbox) (c : Call) → All HasShort boxes → All HasShort (box_step boxes c).1
unfolding box_step
box_step-short boxes (subscribes slot) h = subscribe_short (slot_of (length boxes) slot)
  where
    subscribe_short : (o : Option ℕ) → All HasShort (box_subscribe boxes o).1
    subscribe_short none = h
    subscribe_short (some i) = All-set HasShort boxes i _ h (box_at-short boxes i h)
box_step-short boxes (unsubscribes slot) h = unsubscribe_short (slot_of (length boxes) slot)
  where
    unsubscribe_short : (o : Option ℕ) → All HasShort (box_unsubscribe boxes o).1
    unsubscribe_short none = h
    unsubscribe_short (some i) = All-set HasShort boxes i empty_box h tt
box_step-short boxes (asks slot) h = asks_short (slot_of (length boxes) slot)
  where
    asks_short : (o : Option ℕ) → All HasShort (box_asks boxes o).1
    asks_short none = h
    asks_short (some i) = h
box_step-short boxes (takes slot out_cap) h =
    take_short (out_cap == 0) (slot_of (length boxes) slot)
  where
    take_short :
        (b : Bool) (o : Option ℕ)
        → All HasShort (
            let r : Reply × List Mailbox =
              (if b then (got refused, boxes) else box_fetch boxes out_cap o) in
            r.1)
    take_short true o = h
    take_short false none = h
    take_short false (some i) = All-set HasShort boxes i _ h (
        fetch-short (get_or boxes i empty_box).active (get_or boxes i empty_box).queue out_cap
          (box_at-short boxes i h))
box_step-short boxes (broadcasts ns key op value request_id alloc) h =
    deliver_text-short boxes (format_state_changed msg_max ns key op value request_id) alloc
      (format_state_changed-bound msg_max ns key op value request_id) h

-- The hub after some calls.
unfoldable pub after : Hub → List Call → Hub
unfolding step
after h [] = h
after h (c ∷ calls) = after (step h c).1 calls

after-valid :
    (calls : List Call) (h : Hub)
    → IsHub h
    → All HasShort (boxes_of h)
    → IsHub (after h calls) × All HasShort (boxes_of (after h calls))
unfolding after
after-valid [] h v k = (v, k)
after-valid (c ∷ calls) h v k =
    let (e, w) = step_refines h c v in
    after-valid calls (step h c).1 w (
      subst (λ (o : Reply × List Mailbox). All HasShort o.1) (sym e)
        (box_step-short (boxes_of h) c k))

replicate-short : (n : ℕ) → All HasShort (replicate n empty_box)
replicate-short zero = tt
replicate-short (suc n) = (tt, replicate-short n)

abbrev is_refusal : Reply → Bool
is_refusal (done b) = false
is_refusal (sent n) = false
is_refusal (got t) = is_refused t

not_leb : (i n : ℕ) → i < n → leb n i ≡ false
not_leb i n h = ground (arith, h)

-- After any calls on a hub that `edge_ws_hub_create` made, `edge_ws_hub_take_pending` with a slot of the
-- hub and a buffer of EDGE_WS_MSG_MAX bytes is never refused: it returns 0 or a message.
pub take_pending_wide :
    (max_subs : ℕ) (alloc alloc_subs : Bool) (calls : List Call) (h : Hub) (i out_cap : ℕ)
    → hub_create max_subs alloc alloc_subs ≡ some h
    → i < length (after h calls).subs
    → msg_max ≤ out_cap
    → is_refused (take_pending (after h calls) (pos i) out_cap).0 ≡ false
unfolding step box_step slot_of
take_pending_wide max_subs alloc alloc_subs calls h i out_cap made inside wide =
    let (v0, boxes) = hub_create-boxes max_subs alloc alloc_subs h made in
    let w = after h calls in
    let (v, k) =
      after-valid calls h v0
        (subst (All HasShort) (sym boxes) (replicate-short (slot_count max_subs))) in
    let e = (step_refines w (takes (pos i) out_cap) v).0 in
    let positive : (out_cap == 0) ≡ false = ground (arith, wide) in
    let slot : leb (length (boxes_of w)) i ≡ false =
      not_leb i (length (boxes_of w)) (subst (λ n. i < n) (sym (length-boxes w.subs)) inside) in
    ap (λ (o : Reply × List Mailbox). is_refusal o.0) e
    ∙ rw (positive, slot)
        (fetch_wide (get_or (boxes_of w) i empty_box).active (get_or (boxes_of w) i empty_box).queue
          out_cap wide (box_at-short (boxes_of w) i k))
