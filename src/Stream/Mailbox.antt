-- ===== src/Stream/Mailbox.antt =====
-- What a subscriber of src/host/ws_stream.c promises: a queue of 8 messages that drops the oldest.
use edgehost.Prelude.{
  ℕ, suc, ◌+◌, ◌<◌, ◌≡◌, ◌≢◌, refl, arith, Bool, true, false, List, [], ◌∷◌, ◌++◌, map, Option,
  none, some, ltb, leb, if◌then◌else◌, length, get_or, drop, ap, sym, ◌∙◌, subst, Bool-cases, inl,
  inr,
}
use edgehost.Prelude.Text.{Bytes}
use edgehost.Prelude.Window.{length-window}
use edgehost.Stream.{
  Subscriber, pending_max, text_of, take_first, make_room, put_last, sub_push, Taken, refused,
  nothing, message,
}
use edgehost.Stream.Queue.{
  slots, waiting, IsSubscriber, slots-take_first, slots-put_last, take_first-IsSubscriber,
  put_last-IsSubscriber,
}

-- The specification of a slot: whether it is subscribed, and the messages that wait, oldest first.
pub record Mailbox : Type 0 where
  pub active : Bool
  pub queue : List Bytes

abbrev pub view : Subscriber → Mailbox
view s = record { active = s.active; queue = waiting s }

-- Of a full queue the oldest message goes.
unfoldable pub trim : List Bytes → List Bytes
trim w = if leb pending_max (length w) then drop 1 w else w

unfoldable pub deliver : Mailbox → Bytes → Bool → Bool × Mailbox
unfolding trim
deliver b msg alloc =
    if b.active
    then (if alloc
        then (true, record b { queue = trim b.queue ++ (msg ∷ []) })
        else (false, record b { queue = trim b.queue }))
    else (false, b)

unfoldable pub fetch_from : List Bytes → ℕ → Taken × List Bytes
fetch_from [] out_cap = (nothing, [])
fetch_from (m ∷ w) out_cap = if ltb out_cap (length m + 1) then (refused, m ∷ w) else (message m, w)

unfoldable pub fetch : Mailbox → ℕ → Taken × Mailbox
unfolding fetch_from
fetch b out_cap =
    if b.active
    then (let (t, w) = fetch_from b.queue out_cap in (t, record b { queue = w }))
    else (nothing, b)

length-map : (l : List (Option Bytes)) → length (map text_of l) ≡ length l
length-map [] = refl
length-map (o ∷ l) = ap suc (length-map l)

map-append : (l m : List (Option Bytes)) → map text_of (l ++ m) ≡ map text_of l ++ map text_of m
map-append [] m = refl
map-append (o ∷ l) m = ap (λ r. text_of o ∷ r) (map-append l m)

pub length-waiting : (s : Subscriber) → length (waiting s) ≡ s.n
length-waiting s = length-map (slots s) ∙ length-window none s.q pending_max s.head s.n

pub waiting-take_first :
    (s : Subscriber)
    → IsSubscriber s
    → s.n ≢ 0
    → waiting s ≡ text_of (get_or s.q s.head none) ∷ waiting (take_first s)
waiting-take_first s v some_message = ap (map text_of) (slots-take_first s v some_message)

make_room-room : (s : Subscriber) → IsSubscriber s → (make_room s).n < pending_max
unfolding make_room
make_room-room s v = ground (arith, v.n_in)

make_room-IsSubscriber : (s : Subscriber) → IsSubscriber s → IsSubscriber (make_room s)
unfolding make_room
make_room-IsSubscriber s v = elim (Bool-cases (leb pending_max s.n)) [
  | inl full ↦ rw full (take_first-IsSubscriber s v (ground (arith, full)))
  | inr room ↦ rw room v
]

active-make_room : (s : Subscriber) → (make_room s).active ≡ s.active
unfolding make_room
active-make_room s = elim (Bool-cases (leb pending_max s.n)) [
  | inl full ↦ rw full refl
  | inr room ↦ rw room refl
]

waiting-make_room : (s : Subscriber) → IsSubscriber s → waiting (make_room s) ≡ trim (waiting s)
unfolding make_room trim
waiting-make_room s v = elim (Bool-cases (leb pending_max s.n)) [
  | inl full ↦
      rw (length-waiting s, full)
        (sym (ap (drop 1) (waiting-take_first s v (ground (arith, full)))))
  | inr room ↦ rw (length-waiting s, room) refl
]

pub reply_eq :
    {A : Type 0} (a : A) {a1 a2 : Bool} {w1 w2 : List Bytes}
    → a1 ≡ a2
    → w1 ≡ w2
    → ◌≡◌ {A = A × Mailbox}
        (a, record { active = a1; queue = w1 })
        (a, record { active = a2; queue = w2 })
reply_eq a e f = λ i. (a, record { active = e i; queue = f i })

waiting-put_last :
    (s : Subscriber) (msg : Bytes)
    → IsSubscriber s
    → waiting (put_last (make_room s) msg) ≡ trim (waiting s) ++ (msg ∷ [])
waiting-put_last s msg v =
    ap (map text_of)
      (slots-put_last (make_room s) msg (make_room-IsSubscriber s v) (make_room-room s v))
    ∙ map-append (slots (make_room s)) (some msg ∷ [])
    ∙ ap (λ w. w ++ (msg ∷ [])) (waiting-make_room s v)

abbrev pub viewed : {A : Type 0} → A × Subscriber → A × Mailbox
viewed o = (o.0, view o.1)

abbrev pub pushed : Subscriber → Bytes → Bool → Bool × Subscriber
pushed s msg alloc = if alloc then (true, put_last (make_room s) msg) else (false, make_room s)

sub_push-if :
    (s : Subscriber) (msg : Bytes) (alloc b : Bool)
    → s.active ≡ b
    → sub_push s msg alloc ≡ (if b then pushed s msg alloc else (false, s))
unfolding sub_push
sub_push-if s msg alloc b e = ap (λ a. if a then pushed s msg alloc else (false, s)) e

abbrev delivered : Mailbox → Bytes → Bool → Bool × Mailbox
delivered b msg alloc =
    if alloc
    then (true, record b { queue = trim b.queue ++ (msg ∷ []) })
    else (false, record b { queue = trim b.queue })

deliver-if :
    (m : Mailbox) (msg : Bytes) (alloc b : Bool)
    → m.active ≡ b
    → deliver m msg alloc ≡ (if b then delivered m msg alloc else (false, m))
unfolding deliver
deliver-if m msg alloc b e = ap (λ a. if a then delivered m msg alloc else (false, m)) e

pushed_refines :
    (s : Subscriber) (msg : Bytes) (alloc : Bool)
    → IsSubscriber s
    → viewed (pushed s msg alloc) ≡ delivered (view s) msg alloc
pushed_refines s msg true v = reply_eq true (active-make_room s) (waiting-put_last s msg v)
pushed_refines s msg false v = reply_eq false (active-make_room s) (waiting-make_room s v)

-- `sub_push` delivers,
pub sub_push_refines :
    (s : Subscriber) (msg : Bytes) (alloc : Bool)
    → IsSubscriber s
    → viewed (sub_push s msg alloc) ≡ deliver (view s) msg alloc
sub_push_refines s msg alloc v = elim (Bool-cases s.active) [
  | inl on ↦
      ap viewed (sub_push-if s msg alloc true on)
      ∙ pushed_refines s msg alloc v
      ∙ sym (deliver-if (view s) msg alloc true on)
  | inr off ↦
      ap viewed (sub_push-if s msg alloc false off) ∙ sym (deliver-if (view s) msg alloc false off)
]

pushed-IsSubscriber :
    (s : Subscriber) (msg : Bytes) (alloc : Bool)
    → IsSubscriber s
    → s.active ≡ true
    → IsSubscriber (pushed s msg alloc).1
pushed-IsSubscriber s msg true v on =
    put_last-IsSubscriber (make_room s) msg (make_room-IsSubscriber s v) (active-make_room s ∙ on)
      (make_room-room s v)
pushed-IsSubscriber s msg false v on = make_room-IsSubscriber s v

pub sub_push-IsSubscriber :
    (s : Subscriber) (msg : Bytes) (alloc : Bool)
    → IsSubscriber s
    → IsSubscriber (sub_push s msg alloc).1
sub_push-IsSubscriber s msg alloc v = elim (Bool-cases s.active) [
  | inl on ↦
      subst (λ (o : Bool × Subscriber). IsSubscriber o.1) (sym (sub_push-if s msg alloc true on))
        (pushed-IsSubscriber s msg alloc v on)
  | inr off ↦
      subst (λ (o : Bool × Subscriber). IsSubscriber o.1) (sym (sub_push-if s msg alloc false off))
        v
]
