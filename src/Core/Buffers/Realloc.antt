-- ===== src/Core/Buffers/Realloc.antt =====
-- `edgecore_request_realloc`: the grow request of a ready buffer.
use edgehost.Prelude.{
  ℕ, ◌<◌, ◌≡◌, ◌≢◌, ◌↔◌, Bool, true, false, [], ◌∷◌, ◌++◌, some, ◌==◌, if◌then◌else◌, ◌⊎◌,
}
use edgehost.Core.{Core, Slot, slot_pending, slot_ready}
use edgehost.Core.Ring.Invariant.{IsRing}
use edgehost.Core.Ring.Queue.{contents}
use edgehost.Core.Buffers.{is_ready, realloc_event}
use edgehost.Core.Buffers.Invariant.{IsValid, slot_of}

abbrev pub grown : Slot → ℕ → Slot
grown s size = record s { state = slot_pending; requested = size }

-- The slot of a grow request that was rolled back: ready again, with the buffer that it had.
abbrev pub restored : Slot → Slot
restored s = record s { state = slot_ready; requested = s.size }

-- When a grow request is queued.
pub record Grows (c : Core) (s : Slot) (size : ℕ) : Type 0 where
  pub ready : is_ready s ≡ true
  pub positive : size ≢ 0
  pub room : c.cnt < c.qsz

pub record Regrown (c : Core) (id size : ℕ) (s : Slot) (o : Bool × Core) : Type 0 where
  pub status : (o.0 ≡ true) ↔ Grows c s size
  pub valid : IsValid o.1
  pub ring : IsRing o.1
  pub asked :
      o.0 ≡ true
      → (contents o.1 ≡ contents c ++ (realloc_event id (grown s size) size ∷ []))
        × ((j : ℕ) → slot_of o.1 j ≡ (if id == j then some (grown s size) else slot_of c j))
  pub refused :
      o.0 ≡ false
      → (j : ℕ)
      → (slot_of o.1 j ≡ slot_of c j)
        ⊎ ((id ≡ j) × (is_ready s ≡ true) × (slot_of o.1 j ≡ some (restored s)))
