-- ===== src/Core/Ring.antt =====
-- The event ring of src/core/edgecore.c.
pub mod Invariant
pub mod Queue
pub mod Run
use edgehost.Prelude.{
  ℕ, ◌+◌, ◌-◌, ◌%◌, ◌^◌, Bool, true, false, ltb, leb, ◌==◌, if◌then◌else◌, get_or, set,
}
use edgehost.Core.Types.{Event, zero_event, overflow_event}
use edgehost.Core.{Core}

-- `emit_event`: on a full ring the oldest event is replaced and the new one dropped.
unfoldable pub emit_event : Core → Event → Bool × Core
emit_event c ev =
    if leb c.qsz c.cnt
    then (
      false,
      record c { events = set c.events c.head overflow_event; dropped = (c.dropped + 1) % 2 ^ 64 },
    )
    else (
      true,
      record c { events = set c.events c.tail ev; tail = (c.tail + 1) % c.qsz; cnt = c.cnt + 1 },
    )

-- `edgecore_next_event`: 1 with the event is `(true, ev)`, 0 with the empty event `(false, ev)`.
unfoldable pub next_event : Core → Bool × Event × Core
next_event c = if c.cnt == 0 then (false, zero_event, c) else (
  true,
  get_or c.events c.head zero_event,
  record c { head = (c.head + 1) % c.qsz; cnt = c.cnt - 1 },
)

pub has_pending_events : Core → Bool
has_pending_events c = ltb 0 c.cnt

event_count : Core → ℕ
event_count c = c.cnt

dropped_count : Core → ℕ
dropped_count c = c.dropped
