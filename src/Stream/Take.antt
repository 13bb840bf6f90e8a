-- ===== src/Stream/Take.antt =====
-- `edge_ws_hub_take_pending` of src/host/ws_stream.c on one slot.
use edgehost.Prelude.{
  ℕ, ◌+◌, ◌≡◌, ◌≢◌, refl, arith, Bool, true, false, not, ◌||◌, List, [], ◌∷◌, none, ltb, ◌==◌,
  ==_iff, if◌then◌else◌, length, get_or, ap, sym, ◌∙◌, subst, Bool-cases, inl, inr,
}
use edgehost.Prelude.Text.{Bytes}
use edgehost.Stream.{Subscriber, text_of, take_first, Taken, refused, nothing, message, sub_take}
use edgehost.Stream.Queue.{waiting, IsSubscriber, take_first-IsSubscriber}
use edgehost.Stream.Mailbox.{
  waiting-take_first, length-waiting, Mailbox, view, viewed, fetch, fetch_from, reply_eq,
}

abbrev taken : Subscriber → ℕ → Taken × Subscriber
taken s out_cap =
    let first = text_of (get_or s.q s.head none) in
    if ltb out_cap (length first + 1) then (refused, s) else (message first, take_first s)

sub_take-if :
    (s : Subscriber) (out_cap : ℕ) (b : Bool)
    → (not s.active || s.n == 0) ≡ b
    → sub_take s out_cap ≡ (if b then (nothing, s) else taken s out_cap)
unfolding sub_take
sub_take-if s out_cap b e = ap (λ a. if a then (nothing, s) else taken s out_cap) e

fetch_on :
    (m : Mailbox) (out_cap : ℕ) (w : List Bytes)
    → m.active ≡ true
    → m.queue ≡ w
    → fetch m out_cap ≡ (let (t, rest) = fetch_from w out_cap in (t, record m { queue = rest }))
unfolding fetch
fetch_on m out_cap w on e =
    ap
      (λ a.
        (if a
          then (let (t, rest) = fetch_from m.queue out_cap in (t, record m { queue = rest }))
          else (nothing, m)))
      on
    ∙ ap (λ l. (let (t, rest) = fetch_from l out_cap in (t, record m { queue = rest }))) e

fetch_off : (m : Mailbox) (out_cap : ℕ) → m.active ≡ false → fetch m out_cap ≡ (nothing, m)
unfolding fetch
fetch_off m out_cap off =
    ap
      (λ a.
        (if a
          then (let (t, rest) = fetch_from m.queue out_cap in (t, record m { queue = rest }))
          else (nothing, m)))
      off

taken_refines :
    (s : Subscriber) (out_cap : ℕ)
    → IsSubscriber s
    → s.active ≡ true
    → s.n ≢ 0
    → viewed (taken s out_cap) ≡ fetch (view s) out_cap
unfolding fetch_from
taken_refines s out_cap v on some_message =
    let first = text_of (get_or s.q s.head none) in
    let queue = waiting-take_first s v some_message in
    elim (Bool-cases (ltb out_cap (length first + 1))) [
      | inl small ↦
          ap (λ b. viewed (if b then (refused, s) else (message first, take_first s))) small
          ∙ reply_eq refused refl queue
          ∙ sym (
              fetch_on (view s) out_cap _ on queue
              ∙ ap
                  (λ b.
                    (let (t, rest) : Taken × List Bytes =
                        (if b
                          then (refused, first ∷ waiting (take_first s))
                          else (message first, waiting (take_first s))) in
                      (t, record (view s) { queue = rest })))
                  small)
      | inr fits ↦
          ap (λ b. viewed (if b then (refused, s) else (message first, take_first s))) fits
          ∙ sym (
              fetch_on (view s) out_cap _ on queue
              ∙ ap
                  (λ b.
                    (let (t, rest) : Taken × List Bytes =
                        (if b
                          then (refused, first ∷ waiting (take_first s))
                          else (message first, waiting (take_first s))) in
                      (t, record (view s) { queue = rest })))
                  fits)
    ]

empty-waiting : (w : List Bytes) → length w ≡ 0 → w ≡ []
empty-waiting [] h = refl
empty-waiting (m ∷ w) h = absurd (omega arith)

-- `edge_ws_hub_take_pending` fetches.
pub sub_take_refines :
    (s : Subscriber) (out_cap : ℕ)
    → IsSubscriber s
    → viewed (sub_take s out_cap) ≡ fetch (view s) out_cap
unfolding fetch_from
sub_take_refines s out_cap v = elim (Bool-cases s.active) [
  | inr off ↦
      ap viewed (sub_take-if s out_cap true (ap (λ b. not b || s.n == 0) off))
      ∙ sym (fetch_off (view s) out_cap off)
  | inl on ↦ elim (Bool-cases (s.n == 0)) [
    | inl empty ↦
        let none_waits = empty-waiting (waiting s) (length-waiting s ∙ (==_iff s.n 0).0 empty) in
        ap viewed (sub_take-if s out_cap true (ap (λ b. not b || s.n == 0) on ∙ empty))
        ∙ reply_eq nothing refl none_waits
        ∙ sym (fetch_on (view s) out_cap [] on none_waits)
    | inr some_message ↦
        ap viewed (sub_take-if s out_cap false (ap (λ b. not b || s.n == 0) on ∙ some_message))
        ∙ taken_refines s out_cap v on (ground (arith, some_message))
  ]
]

taken-IsSubscriber :
    (s : Subscriber) (out_cap : ℕ) → IsSubscriber s → s.n ≢ 0 → IsSubscriber (taken s out_cap).1
taken-IsSubscriber s out_cap v some_message =
    let first = text_of (get_or s.q s.head none) in
    elim (Bool-cases (ltb out_cap (length first + 1))) [
      | inl small ↦
          subst (λ (o : Taken × Subscriber). IsSubscriber o.1)
            (sym (ap (λ b. if b then (refused, s) else (message first, take_first s)) small)) v
      | inr fits ↦
          subst (λ (o : Taken × Subscriber). IsSubscriber o.1)
            (sym (ap (λ b. if b then (refused, s) else (message first, take_first s)) fits))
            (take_first-IsSubscriber s v some_message)
    ]

pub sub_take-IsSubscriber :
    (s : Subscriber) (out_cap : ℕ) → IsSubscriber s → IsSubscriber (sub_take s out_cap).1
sub_take-IsSubscriber s out_cap v = elim (Bool-cases (not s.active || s.n == 0)) [
  | inl none_waits ↦
      subst (λ (o : Taken × Subscriber). IsSubscriber o.1)
        (sym (sub_take-if s out_cap true none_waits)) v
  | inr waits ↦
      subst (λ (o : Taken × Subscriber). IsSubscriber o.1) (sym (sub_take-if s out_cap false waits))
        (taken-IsSubscriber s out_cap v (ground (arith, waits)))
]
