-- ===== src/Core/Ring/Run.antt =====
-- Any sequence of events emitted and taken: the ring against the bounded queue.
use edgehost.Prelude.{ℕ, ◌≡◌, refl, Bool, List, [], ◌∷◌, length, ltb, ap, ap₂, ◌∙◌, arith}
use edgehost.Core.{Core}
use edgehost.Core.Types.{Event, zero_event}
use edgehost.Core.Ring.{emit_event, next_event}
use edgehost.Core.Ring.Invariant.{IsRing, emit_event-IsRing, next_event-IsRing}
use edgehost.Core.Ring.Queue.{contents, push, pop, emit_refines, next_refines}

pub data Call : Type 0 where
  emits : Event → Call
  takes : Call

-- What each call returns, in order: `emit_event`'s status, or `edgecore_next_event`'s and its event.
pub run : Core → List Call → List (Bool × Event)
run c [] = []
run c (emits ev ∷ calls) = let (sent, c') = emit_event c ev in (sent, zero_event) ∷ run c' calls
run c (takes ∷ calls) = let (got, ev, c') = next_event c in (got, ev) ∷ run c' calls

pub queue_run : ℕ → List Event → List Call → List (Bool × Event)
queue_run q es [] = []
queue_run q es (emits ev ∷ calls) =
    (ltb (length es) q, zero_event) ∷ queue_run q (push q es ev) calls
queue_run q es (takes ∷ calls) = let (got, ev, es') = pop es in (got, ev) ∷ queue_run q es' calls

pub qsz-emit_event : (c : Core) (ev : Event) → (emit_event c ev).1.qsz ≡ c.qsz
unfolding emit_event
qsz-emit_event c ev = ground arith

qsz-next_event : (c : Core) → (next_event c).2.qsz ≡ c.qsz
unfolding next_event
qsz-next_event c = ground arith

-- No sequence of emits and takes tells a valid ring from the bounded queue of the events that it
-- holds: the same statuses and the same events come back, in the same order.
pub run_refines :
    (calls : List Call) {c : Core} → IsRing c → run c calls ≡ queue_run c.qsz (contents c) calls
unfolding run queue_run
run_refines [] v = refl
run_refines (emits ev ∷ calls) {c} v =
    let r = emit_refines ev v in
    ap₂ ◌∷◌ (ap (λ b. (let p : Bool × Event = (b, zero_event) in p)) r.1) (
      run_refines calls (emit_event-IsRing ev v)
      ∙ ap₂ (λ q es. queue_run q es calls) (qsz-emit_event c ev) r.0)
run_refines (takes ∷ calls) {c} v =
    let r = next_refines v in
    ap₂ ◌∷◌ (ap (λ (p : Bool × Event × List Event). (let b : Bool × Event = (p.0, p.1) in b)) r) (
      run_refines calls (next_event-IsRing v)
      ∙ ap₂ (λ q (p : Bool × Event × List Event). queue_run q p.2 calls) (qsz-next_event c) r)
