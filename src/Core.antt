-- ===== src/Core.antt =====
-- src/core/edgecore.c and include/edgecore.h: the event ring, the table of host buffers and the
-- active configuration. Pointers to host memory are numbers, 0 for NULL; a pointer to a buffer slot
-- is its index; a status 0 is `true` and -1 is `false`; the core itself is never NULL here.
pub mod Types
pub mod Ring
pub mod Buffers
pub mod Settings
mod Tests
use edgehost.Prelude.{
  ℕ, Bool, false, not, ◌&&◌, List, Option, none, some, ltb, if◌then◌else◌, replicate,
}
use edgehost.Config.{Config, defaults}
use Types.{BufKind, Event, zero_event}

abbrev pub max_bufs : ℕ
max_bufs = 32

abbrev pub default_q : ℕ
default_q = 64

abbrev pub max_q : ℕ
max_q = 256

pub data SlotState : Type 0 where
  slot_free slot_pending slot_ready : SlotState

pub record Slot : Type 0 where
  pub state : SlotState
  pub kind : BufKind
  pub alloc_id : ℕ
  pub ptr : ℕ
  pub size : ℕ
  pub requested : ℕ

-- A slot after `memset(slot, 0, sizeof(*slot))`.
abbrev pub zero_slot : Slot
zero_slot = record {
  state = slot_free;
  kind = BufKind.no_kind;
  alloc_id = 0;
  ptr = 0;
  size = 0;
  requested = 0;
}

pub record Core : Type 0 where
  pub qsz : ℕ
  pub events : List Event
  pub head : ℕ
  pub tail : ℕ
  pub cnt : ℕ
  pub dropped : ℕ
  pub bufs : List Slot
  pub next_alloc_id : ℕ
  pub cfg : Config
  pub cfg_applied : Bool

-- `edgecore_create_with_config`'s ring size; the argument is `cfg->event_queue_size`, or `none` for
-- a NULL `cfg`.
pub queue_size : Option ℕ → ℕ
queue_size none = default_q
queue_size (some n) = if ltb 0 n then (if ltb max_q n then max_q else n) else default_q

-- `mem` says which of the two allocations succeed.
pub create_with_config : Option ℕ → (ℕ → Bool) → Option Core
create_with_config cfg mem =
    let q = queue_size cfg in
    if not (mem 0 && mem 1)
    then none
    else some (record {
      qsz = q;
      events = replicate q zero_event;
      head = 0;
      tail = 0;
      cnt = 0;
      dropped = 0;
      bufs = replicate max_bufs zero_slot;
      next_alloc_id = 1;
      cfg = defaults;
      cfg_applied = false;
    })

-- `edgecore_create`, whose configuration has the event queue size 0.
create : (ℕ → Bool) → Option Core
create mem = create_with_config (some 0) mem
