-- ===== src/Stream/Refine.antt =====
-- The hub of src/host/ws_stream.c against its mailboxes.
use edgehost.Prelude.{
  ℕ, zero, suc, ◌+◌, ◌≡◌, refl, Bool, true, false, List, [], ◌∷◌, map, Option, none, some, ◌==◌,
  if◌then◌else◌, length, get_or, set, replicate, to_int, All, All-set, ap, sym, ◌∙◌, subst,
  Bool-cases, some_inj, inl, inr, ◌&&◌,
}
use edgehost.Prelude.Int.{ℤ}
use edgehost.Prelude.Text.{Bytes}
use edgehost.Stream.{
  Subscriber, zero_subscriber, Hub, hub_create, slot_of, sub_at, subscribe_at, unsubscribe_at,
  active_at, take_at, subscribe, unsubscribe, is_subscribed, push_all, Taken, refused, sub_take,
  take_pending,
}
use edgehost.Stream.Message.{msg_max, format_state_changed, push_text, broadcast}
use edgehost.Stream.Queue.{IsSubscriber, zero-IsSubscriber}
use edgehost.Stream.Mailbox.{Mailbox, view, fetch, sub_push_refines, sub_push-IsSubscriber}
use edgehost.Stream.Take.{sub_take_refines, sub_take-IsSubscriber}
use edgehost.Stream.Run.{
  Call, subscribes, unsubscribes, asks, takes, broadcasts, Reply, done, sent, got, step, run,
  empty_box, deliver_all, deliver_text, box_subscribe, box_unsubscribe, box_asks, box_fetch,
  box_step, box_run, boxes_of, IsHub,
}

pub length-boxes : (l : List Subscriber) → length (map view l) ≡ length l
length-boxes [] = refl
length-boxes (s ∷ l) = ap suc (length-boxes l)

get_or-boxes :
    (l : List Subscriber) (i : ℕ)
    → get_or (map view l) i empty_box ≡ view (get_or l i zero_subscriber)
get_or-boxes [] i = refl
get_or-boxes (s ∷ l) zero = refl
get_or-boxes (s ∷ l) (suc i) = get_or-boxes l i

map-set :
    (l : List Subscriber) (i : ℕ) (s : Subscriber)
    → map view (set l i s) ≡ set (map view l) i (view s)
map-set [] i s = refl
map-set (x ∷ l) zero s = refl
map-set (x ∷ l) (suc i) s = ap (λ r. view x ∷ r) (map-set l i s)

sub_at-IsSubscriber :
    (l : List Subscriber) (i : ℕ) → All IsSubscriber l → IsSubscriber (get_or l i zero_subscriber)
sub_at-IsSubscriber [] i h = zero-IsSubscriber
sub_at-IsSubscriber (s ∷ l) zero h = h.0
sub_at-IsSubscriber (s ∷ l) (suc i) h = sub_at-IsSubscriber l i h.1

push_all_refines :
    (msg : Bytes) (alloc : ℕ → Bool) (i : ℕ) (subs : List Subscriber)
    → All IsSubscriber subs
    → let (count, after) = push_all msg alloc i subs in
      ◌≡◌ {A = ℕ × List Mailbox} (count, map view after) (deliver_all msg alloc i (map view subs))
unfolding push_all deliver_all
push_all_refines msg alloc i [] h = refl
push_all_refines msg alloc i (s ∷ subs) h =
    let first = sub_push_refines s msg (alloc i) h.0 in
    let rest = push_all_refines msg alloc (i + 1) subs h.1 in
    λ j. (to_int (first j).0 + (rest j).0, (first j).1 ∷ (rest j).1)

push_all-All :
    (msg : Bytes) (alloc : ℕ → Bool) (i : ℕ) (subs : List Subscriber)
    → All IsSubscriber subs
    → All IsSubscriber (push_all msg alloc i subs).1
unfolding push_all
push_all-All msg alloc i [] h = tt
push_all-All msg alloc i (s ∷ subs) h =
    (sub_push-IsSubscriber s msg (alloc i) h.0, push_all-All msg alloc (i + 1) subs h.1)

abbrev pub Mirrors : Hub → Reply × Hub → Reply × List Mailbox → Type 0
Mirrors h o b = (◌≡◌ {A = Reply × List Mailbox} (o.0, boxes_of o.1) b) × IsHub o.1

broadcast_refines :
    (h : Hub) (msg : Option Bytes) (alloc : ℕ → Bool)
    → IsHub h
    → let (count, w) = push_text h msg alloc in
      Mirrors h (sent count, w) (deliver_text (boxes_of h) msg alloc)
broadcast_refines h none alloc v = (refl, v)
broadcast_refines h (some msg) alloc v =
    let e = push_all_refines msg alloc 0 h.subs v in
    ((λ j. (sent (e j).0, (e j).1)), push_all-All msg alloc 0 h.subs v)

subscribe_refines :
    (h : Hub) (o : Option ℕ)
    → IsHub h
    → let (ok, w) = subscribe_at h o in Mirrors h (done ok, w) (box_subscribe (boxes_of h) o)
subscribe_refines h none v = (refl, v)
subscribe_refines h (some i) v =
    let s = sub_at h i in
    let vs = sub_at-IsSubscriber h.subs i v in
    (
      (λ j. (
        done true,
        (map-set h.subs i (record s { active = true })
              ∙ ap (λ (b : Mailbox). set (boxes_of h) i (record b { active = true }))
                  (sym (get_or-boxes h.subs i)))
            j,
      )),
      All-set IsSubscriber h.subs i (record s { active = true }) v
          (record {
            sized = vs.sized;
            head_in = vs.head_in;
            n_in = vs.n_in;
            tail_at = vs.tail_at;
            held = vs.held;
            idle = λ e. absurd (cc e);
          }),
    )

unsubscribe_refines :
    (h : Hub) (o : Option ℕ)
    → IsHub h
    → Mirrors h (done true, unsubscribe_at h o) (box_unsubscribe (boxes_of h) o)
unsubscribe_refines h none v = (refl, v)
unsubscribe_refines h (some i) v = (
  (λ j. (done true, map-set h.subs i zero_subscriber j)),
  All-set IsSubscriber h.subs i zero_subscriber v zero-IsSubscriber,
)

asks_refines :
    (h : Hub) (o : Option ℕ)
    → IsHub h
    → Mirrors h (done (active_at h o), h) (box_asks (boxes_of h) o)
asks_refines h none v = (refl, v)
asks_refines h (some i) v = ((λ j. (done (sym (get_or-boxes h.subs i) j).active, boxes_of h)), v)

take_refines :
    (h : Hub) (out_cap : ℕ) (o : Option ℕ)
    → IsHub h
    → let (t, w) = take_at h out_cap o in Mirrors h (got t, w) (box_fetch (boxes_of h) out_cap o)
take_refines h out_cap none v = (refl, v)
take_refines h out_cap (some i) v =
    let vs = sub_at-IsSubscriber h.subs i v in
    let first =
      sub_take_refines (sub_at h i) out_cap vs
      ∙ ap (λ b. fetch b out_cap) (sym (get_or-boxes h.subs i)) in
    let s = (sub_take (sub_at h i) out_cap).1 in
    (
      (λ j. (got (sub_take (sub_at h i) out_cap).0, map-set h.subs i s j))
          ∙ (λ j. (got (first j).0, set (boxes_of h) i (first j).1)),
      All-set IsSubscriber h.subs i s v (sub_take-IsSubscriber (sub_at h i) out_cap vs),
    )

take_if_refines :
    (h : Hub) (out_cap : ℕ) (b : Bool) (o : Option ℕ)
    → IsHub h
    → let (t, w) : Taken × Hub = (if b then (refused, h) else take_at h out_cap o) in
      Mirrors h
        (got t, w)
        (if b then (got refused, boxes_of h) else box_fetch (boxes_of h) out_cap o)
take_if_refines h out_cap true o v = (refl, v)
take_if_refines h out_cap false o v = take_refines h out_cap o v

-- The slots of the hub are the mailboxes'.
slot_same : (h : Hub) (slot : ℤ) → slot_of (length h.subs) slot ≡ slot_of (length (boxes_of h)) slot
slot_same h slot = ap (λ n. slot_of n slot) (sym (length-boxes h.subs))

-- Each call returns what it returns of the mailboxes, and keeps them.
pub step_refines : (h : Hub) (c : Call) → IsHub h → Mirrors h (step h c) (box_step (boxes_of h) c)
unfolding step box_step subscribe unsubscribe is_subscribed take_pending broadcast
step_refines h (subscribes slot) v =
    let (e, w) = subscribe_refines h (slot_of (length h.subs) slot) v in
    (e ∙ ap (box_subscribe (boxes_of h)) (slot_same h slot), w)
step_refines h (unsubscribes slot) v =
    let (e, w) = unsubscribe_refines h (slot_of (length h.subs) slot) v in
    (e ∙ ap (box_unsubscribe (boxes_of h)) (slot_same h slot), w)
step_refines h (asks slot) v =
    let (e, w) = asks_refines h (slot_of (length h.subs) slot) v in
    (e ∙ ap (box_asks (boxes_of h)) (slot_same h slot), w)
step_refines h (takes slot out_cap) v =
    let (e, w) = take_if_refines h out_cap (out_cap == 0) (slot_of (length h.subs) slot) v in
    (
      e
          ∙ ap
              (λ o.
                if out_cap == 0
                then (got refused, boxes_of h)
                else box_fetch (boxes_of h) out_cap o)
              (slot_same h slot),
      w,
    )
step_refines h (broadcasts ns key op value request_id alloc) v =
    broadcast_refines h (format_state_changed msg_max ns key op value request_id) alloc v

run_valid : (calls : List Call) (h : Hub) → IsHub h → run h calls ≡ box_run (boxes_of h) calls
unfolding run box_run
run_valid [] h v = refl
run_valid (c ∷ calls) h v =
    let (e, w) = step_refines h c v in
    (λ j. (step h c).0 ∷ run_valid calls (step h c).1 w j) ∙ (λ j. (e j).0 ∷ box_run (e j).1 calls)

replicate-IsSubscriber : (n : ℕ) → All IsSubscriber (replicate n zero_subscriber)
replicate-IsSubscriber zero = tt
replicate-IsSubscriber (suc n) = (zero-IsSubscriber, replicate-IsSubscriber n)

boxes-replicate : (n : ℕ) → map view (replicate n zero_subscriber) ≡ replicate n empty_box
boxes-replicate zero = refl
boxes-replicate (suc n) = ap (λ l. empty_box ∷ l) (boxes-replicate n)

abbrev pub slot_count : ℕ → ℕ
slot_count max_subs = if max_subs == 0 then 64 else max_subs

pub hub_create-boxes :
    (max_subs : ℕ) (alloc alloc_subs : Bool) (h : Hub)
    → hub_create max_subs alloc alloc_subs ≡ some h
    → IsHub h × (boxes_of h ≡ replicate (slot_count max_subs) empty_box)
unfolding hub_create
hub_create-boxes max_subs alloc alloc_subs h e = elim (Bool-cases (alloc && alloc_subs)) [
  | inr failed ↦ absurd (cc (rw failed at e))
  | inl got_both ↦
      let made = some_inj (rw got_both at e) in
      (
        subst IsHub made (replicate-IsSubscriber (slot_count max_subs)),
        ap boxes_of (sym made) ∙ boxes-replicate (slot_count max_subs),
      )
]

-- Any sequence of calls on a hub that `edge_ws_hub_create` made returns what it returns of one mailbox
-- for each slot: a mailbox that is not subscribed holds nothing and gets nothing; one that is gets every
-- message that could be formatted and copied, in order, and holds the 8 newest at most, losing its oldest
-- when a message arrives at a full one, be it copied or not; a message is taken once, oldest first, and
-- stays when the caller's buffer is too small for it.
pub run-hub_create :
    (max_subs : ℕ) (alloc alloc_subs : Bool) (calls : List Call) (h : Hub)
    → hub_create max_subs alloc alloc_subs ≡ some h
    → run h calls ≡ box_run (replicate (slot_count max_subs) empty_box) calls
run-hub_create max_subs alloc alloc_subs calls h e =
    let (v, boxes) = hub_create-boxes max_subs alloc alloc_subs h e in
    run_valid calls h v ∙ ap (λ b. box_run b calls) boxes
