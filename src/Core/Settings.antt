-- ===== src/Core/Settings.antt =====
-- The configuration of src/core/edgecore.c: validated and replaced as a whole.
pub mod Apply
use edgehost.Prelude.{
  ℕ, ◌+◌, ◌%◌, ◌^◌, Bool, true, false, ◌++◌, Option, none, some, ◌==◌, if◌then◌else◌,
}
use edgehost.Prelude.Text.{Bytes, text, bounded, is_empty, decimal}
use edgehost.Config.{Config, validate}
use edgehost.Core.Types.{EventType, Event, zero_event, reason_size}
use edgehost.Core.{Core}
use edgehost.Core.Ring.{emit_event}

unfoldable pub applied_reason : ℕ → ℕ → Bytes
applied_reason generation port =
    bounded reason_size
      (text "CONFIG_APPLIED gen=" ++ decimal generation ++ text " port=" ++ decimal port)

abbrev pub rejected_event : Bytes → Event
rejected_event reason = record zero_event { type = EventType.config_rejected; reason = reason }

abbrev pub applied_event : Config → Event
applied_event cfg = record zero_event {
  type = EventType.config_applied;
  reason = applied_reason cfg.generation cfg.listen_port;
}

-- The generation is 64 bits wide and skips 0.
pub next_generation : ℕ → ℕ
next_generation g = let n = (g + 1) % 2 ^ 64 in if n == 0 then 1 else n

apply_valid : Core → Config → Bool × Core
apply_valid c cfg =
    let next = record cfg { generation = next_generation c.cfg.generation } in
    (true, (emit_event (record c { cfg = next; cfg_applied = true }) (applied_event next)).1)

-- A NULL config is `none`.
pub apply_config : Core → Option Config → Bool × Core
unfolding apply_valid
apply_config c none = (false, c)
apply_config c (some cfg) =
    let (valid, verr) = validate (some cfg) reason_size in
    if valid
    then apply_valid c cfg
    else (false, (emit_event c (rejected_event (bounded reason_size verr))).1)

pub notify_config_rejected : Core → Option Bytes → Bool × Core
notify_config_rejected c none = emit_event c (rejected_event (text "CONFIG_REJECTED"))
notify_config_rejected c (some reason) = emit_event c (
    rejected_event (if is_empty reason then text "CONFIG_REJECTED" else bounded reason_size reason))
