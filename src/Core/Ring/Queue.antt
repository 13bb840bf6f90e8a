-- ===== src/Core/Ring/Queue.antt =====
-- The ring as a bounded queue of events, oldest first.
use edgehost.Prelude.{
  ℕ, suc, ◌+◌, ◌-◌, ◌%◌, ◌≤◌, ◌<◌, ◌≡◌, ◌≢◌, refl, Bool, true, false, List, [], ◌∷◌, ◌++◌, arith,
  length, set, get_or, leb, ltb, if◌then◌else◌, ap, ap₂, ◌∙◌, sym, subst, dec_lt, ℕ_discrete,
  get_or-set_self, lt→ltb,
}
use edgehost.Prelude.Window.{
  window, length-window, turn_ne, turn_next, window-set_ne, window-set_end, cons-window,
}
use edgehost.Core.{Core}
use edgehost.Core.Types.{Event, zero_event, overflow_event}
use edgehost.Core.Ring.{emit_event, next_event}
use edgehost.Core.Ring.Invariant.{
  IsRing, overflowed, queued, taken, emit_event_full, emit_event_room, next_event-taken,
  next_event_empty,
}

abbrev pub contents : Core → List Event
contents c = window zero_event c.events c.qsz c.head c.cnt

pub length-contents : (c : Core) → length (contents c) ≡ c.cnt
length-contents c = length-window zero_event c.events c.qsz c.head c.cnt

-- The specification: a queue of at most `q` events. On a full one the oldest event gives way to an
-- overflow mark and the new one is dropped.
pub push : ℕ → List Event → Event → List Event
push q [] ev = ev ∷ []
push q (e ∷ es) ev = if leb q (suc (length es)) then overflow_event ∷ es else (e ∷ es) ++ (ev ∷ [])

pub pop : List Event → Bool × Event × List Event
pop [] = (false, zero_event, [])
pop (e ∷ es) = (true, e, es)

cons-contents :
    (c : Core) → c.cnt ≢ 0 → contents c ≡ get_or c.events c.head zero_event ∷ contents (taken c)
cons-contents c h = cons-window zero_event c.events c.qsz c.head c.cnt h

pub contents-overflowed :
    {c : Core}
    → IsRing c
    → c.cnt ≢ 0
    → contents (overflowed c) ≡ overflow_event ∷ contents (taken c)
contents-overflowed {c} v h =
    cons-contents (overflowed c) h
    ∙ ap₂ ◌∷◌
        (get_or-set_self c.events c.head overflow_event zero_event
          (omega (arith, v.sized, v.head_in)))
        (window-set_ne zero_event c.events c.qsz c.head overflow_event (c.cnt - 1)
          ((c.head + 1) % c.qsz) (omega (arith, v.nonempty))
          (λ k hk e.
            turn_ne c.qsz c.head k v.head_in (omega (arith, v.cnt_in))
              (turn_next c.qsz c.head k ∙ sym e)))

pub contents-queued :
    {c : Core} (ev : Event)
    → IsRing c
    → c.cnt < c.qsz
    → contents (queued c ev) ≡ contents c ++ (ev ∷ [])
contents-queued {c} ev v room =
    ap (window zero_event (set c.events c.tail ev) c.qsz c.head) {y = suc c.cnt} (omega arith)
    ∙ window-set_end zero_event c.events c.qsz ev c.cnt c.head c.tail (omega (arith, v.sized))
        v.head_in room v.tail_at

push-room : (q : ℕ) (es : List Event) (ev : Event) → length es < q → push q es ev ≡ es ++ (ev ∷ [])
unfolding push
push-room q [] ev h = refl
push-room q (e ∷ es) ev h = ground arith

pub push-full :
    (q : ℕ) (e : Event) (es : List Event) (ev : Event)
    → q ≤ suc (length es)
    → push q (e ∷ es) ev ≡ overflow_event ∷ es
unfolding push
push-full q e es ev h = ground arith

-- `emit_event` is `push` on the queue that the ring holds, and succeeds exactly when the ring was
-- not full.
pub emit_refines :
    {c : Core} (ev : Event)
    → IsRing c
    → (contents (emit_event c ev).1 ≡ push c.qsz (contents c) ev)
      × ((emit_event c ev).0 ≡ ltb (length (contents c)) c.qsz)
emit_refines {c} ev v = elim (dec_lt c.cnt c.qsz) [
  | yes room ↦
      let short : length (contents c) < c.qsz = omega (arith, length-contents c, room) in
      subst
        (λ (o : Bool × Core).
          (contents o.1 ≡ push c.qsz (contents c) ev) × (o.0 ≡ ltb (length (contents c)) c.qsz))
        (sym (emit_event_room c ev room))
        (
          contents-queued ev v room ∙ sym (push-room c.qsz (contents c) ev short),
          sym (lt→ltb _ _ short),
        )
  | no full ↦
      let some_event : c.cnt ≢ 0 = omega (arith, v.nonempty) in
      subst
        (λ (o : Bool × Core).
          (contents o.1 ≡ push c.qsz (contents c) ev) × (o.0 ≡ ltb (length (contents c)) c.qsz))
        (sym (emit_event_full c ev (omega arith)))
        (
          contents-overflowed v some_event
              ∙ sym (
                  ap (λ es. push c.qsz es ev) (cons-contents c some_event)
                  ∙ push-full c.qsz _ (contents (taken c)) ev
                      (omega (arith, length-contents (taken c)))),
          ground (arith, length-contents c),
        )
]

-- `edgecore_next_event` is `pop`.
pub next_refines :
    {c : Core}
    → IsRing c
    → let (b, ev, c') = next_event c in (b, ev, contents c') ≡ pop (contents c)
unfolding pop
next_refines {c} v = elim (ℕ_discrete c.cnt 0) [
  | yes e ↦
      subst
        (λ (o : Bool × Event × Core).
          ◌≡◌ {A = Bool × Event × List Event} (o.0, o.1, contents o.2) (pop (contents c)))
        (sym (next_event_empty c e))
        (ap
            (λ n.
              (let r : Bool × Event × List Event =
                  (false, zero_event, window zero_event c.events c.qsz c.head n) in
                r))
            e
          ∙ sym (ap (λ n. pop (window zero_event c.events c.qsz c.head n)) e))
  | no ne ↦
      subst
        (λ (o : Bool × Event × Core).
          ◌≡◌ {A = Bool × Event × List Event} (o.0, o.1, contents o.2) (pop (contents c)))
        (sym (next_event-taken c ne)) (sym (ap pop (cons-contents c ne)))
]
