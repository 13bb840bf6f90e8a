-- ===== src/Core/Settings/Apply.antt =====
-- What `edgecore_apply_config` and `edgecore_notify_config_rejected` do to the configuration and to
-- the queue of events.
use edgehost.Prelude.{
  ℕ, ◌+◌, ◌^◌, ◌<◌, ◌≡◌, ◌≢◌, ◌↔◌, refl, Bool, true, false, some, arith, Bool-cases, inl, inr, sym,
  subst,
}
use edgehost.Prelude.Text.{Bytes, bounded}
use edgehost.Config.{Config, validate}
use edgehost.Config.Validity
use edgehost.Config.Validity.{validate_iff}
use edgehost.Core.{Core}
use edgehost.Core.Types.{Event, reason_size}
use edgehost.Core.Ring.{emit_event}
use edgehost.Core.Ring.Invariant.{IsRing, emit_event-IsRing}
use edgehost.Core.Ring.Queue.{contents, push, emit_refines}
use edgehost.Core.Buffers.Invariant.{bufs-emit_event}
use edgehost.Core.Settings.{
  apply_config, apply_valid, next_generation, applied_event, rejected_event,
}

cfg-emit_event : (c : Core) (ev : Event) → (emit_event c ev).1.cfg ≡ c.cfg
unfolding emit_event
cfg-emit_event c ev = ground arith

-- The new generation is never 0, and is the old one plus 1 until the 64 bits are used up.
pub next_generation_lem :
    (g : ℕ) → (next_generation g ≢ 0) × (g + 1 < 2 ^ 64 → next_generation g ≡ g + 1)
unfolding next_generation
next_generation_lem g = (λ h. ground arith, λ h. ground arith)

abbrev pub activated : Core → Config → Config
activated c cfg = record cfg { generation = next_generation c.cfg.generation }

pub record Applied (c : Core) (cfg : Config) (o : Bool × Core) : Type 0 where
  pub status : (o.0 ≡ true) ↔ Validity.IsValid cfg
  pub ring : IsRing o.1
  pub swapped :
      o.0 ≡ true
      → (o.1.cfg ≡ activated c cfg)
        × (contents o.1 ≡ push c.qsz (contents c) (applied_event (activated c cfg)))
  pub kept :
      o.0 ≡ false
      → (o.1.cfg ≡ c.cfg)
        × ((reason : Bytes) × (contents o.1 ≡ push c.qsz (contents c) (rejected_event reason)))
  pub table : o.1.bufs ≡ c.bufs

apply_accepts :
    (c : Core) (cfg : Config)
    → (validate (some cfg) reason_size).0 ≡ true
    → apply_config c (some cfg) ≡ (
      true,
      (emit_event
          (record c { cfg = activated c cfg; cfg_applied = true })
          (applied_event (activated c cfg))).1,
    )
unfolding apply_config apply_valid
apply_accepts c cfg h = rw h

apply_rejects :
    (c : Core) (cfg : Config)
    → (validate (some cfg) reason_size).0 ≡ false
    → apply_config c (some cfg) ≡ (
      false,
      (emit_event c (rejected_event (bounded reason_size (validate (some cfg) reason_size).1))).1,
    )
unfolding apply_config
apply_rejects c cfg h = rw h

with_cfg-IsRing :
    {c : Core} (cfg : Config) → IsRing c → IsRing (record c { cfg = cfg; cfg_applied = true })
with_cfg-IsRing cfg r = record {
  nonempty = r.nonempty;
  small = r.small;
  sized = r.sized;
  head_in = r.head_in;
  cnt_in = r.cnt_in;
  tail_at = r.tail_at;
}

-- On a valid ring, `edgecore_apply_config` of a configuration returns 0 exactly for a valid one.
-- Then that configuration is active, under the next generation, and a CONFIG_APPLIED event for it
-- goes to the bounded queue of the ring; otherwise the active configuration is as it was and a
-- CONFIG_REJECTED event goes to the queue. The buffers are not touched and the ring stays valid.
pub apply_config-Applied :
    {c : Core} (cfg : Config) → IsRing c → Applied c cfg (apply_config c (some cfg))
apply_config-Applied {c} cfg r = elim (Bool-cases (validate (some cfg) reason_size).0) [
  | inl good ↦ subst (Applied c cfg) (sym (apply_accepts c cfg good)) (record {
    status = (λ _. (validate_iff cfg reason_size).0.0 good, λ _. refl);
    ring = emit_event-IsRing _ (with_cfg-IsRing (activated c cfg) r);
    swapped = λ _. (cfg-emit_event _ _, (emit_refines _ (with_cfg-IsRing (activated c cfg) r)).0);
    kept = λ h. cc;
    table = bufs-emit_event _ _;
  })
  | inr bad ↦ subst (Applied c cfg) (sym (apply_rejects c cfg bad)) (record {
    status = (λ h. cc, λ v. cc (bad, (validate_iff cfg reason_size).0.1 v));
    ring = emit_event-IsRing _ r;
    swapped = λ h. cc;
    kept = λ _. (cfg-emit_event _ _, (_, (emit_refines _ r).0));
    table = bufs-emit_event _ _;
  })
]
