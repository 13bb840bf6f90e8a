-- ===== src/Core/Tests.antt =====
-- Runs of the core, and its theorems at concrete inputs.
use edgehost.Prelude.{◌≡◌, ◌≢◌, ◌↔◌, ◌⊎◌, arith, refl, false, [], ◌∷◌, none, some, replicate}
use edgehost.Prelude.Table.{find_index, count_if}
use edgehost.Config.{defaults}
use edgehost.Core.{Core, Slot, max_bufs, zero_slot, create_with_config, queue_size}
use edgehost.Core.Types.{generic, zero_event}
use edgehost.Core.Ring.{emit_event, next_event}
use edgehost.Core.Ring.Invariant.{IsRing, create-IsRing}
use edgehost.Core.Ring.Queue.{contents}
use edgehost.Core.Ring.Run.{emits, takes, run, queue_run, run_refines}
use edgehost.Core.Buffers.{
  has_id, pending_slot, alloc_event, mint_alloc_id, find_slot_by_id, find_free_slot, request_alloc,
  provide_buffer, detach_buffer, buffer_ptr,
}
use edgehost.Core.Buffers.Invariant.{IsValid, replicate-IsTable, slot_of}
use edgehost.Core.Buffers.Request.{Requested, Grantable, request_alloc-Requested, request_alloc_iff}
use edgehost.Core.Buffers.Provide.{
  Provided, Detached, provide_buffer-Provided, detach_buffer-Detached,
}
use edgehost.Core.Buffers.Overflow.{mentions, overflow_strands, request_reuses_id}
use edgehost.Core.Settings.{apply_config}
use edgehost.Core.Settings.Apply.{Applied, apply_config-Applied}

-- A core whose ring has room for one event.
abbrev small_core : Core
small_core = record {
  qsz = 1;
  events = replicate 1 zero_event;
  head = 0;
  tail = 0;
  cnt = 0;
  dropped = 0;
  bufs = replicate max_bufs zero_slot;
  next_alloc_id = 1;
  cfg = defaults;
  cfg_applied = false;
}

small_core-IsRing : IsRing small_core
unfolding create_with_config queue_size
small_core-IsRing = (create-IsRing (some 1) {c = small_core} refl).0

-- The same after a request for 5 bytes, which takes the id 1.
asked : Core
asked = (request_alloc small_core generic 5).1

first-Requested : Requested small_core generic 5 (request_alloc small_core generic 5)
first-Requested =
    request_alloc-Requested generic 5 replicate-IsTable small_core-IsRing (omega arith)

asked-IsValid : IsValid asked
unfolding asked
asked-IsValid = first-Requested.valid

asked-IsRing : IsRing asked
unfolding asked
asked-IsRing = first-Requested.ring

first_id : (request_alloc small_core generic 5).0 ≡ 1
unfolding request_alloc mint_alloc_id emit_event find_free_slot find_index
first_id = refl

second_is_refused : (request_alloc asked generic 5).0 ≡ 0
unfolding asked request_alloc mint_alloc_id emit_event find_free_slot find_index
second_is_refused = refl

run_refines_example :
    run small_core (emits zero_event ∷ emits zero_event ∷ takes ∷ takes ∷ [])
    ≡ queue_run 1 (contents small_core) (emits zero_event ∷ emits zero_event ∷ takes ∷ takes ∷ [])
run_refines_example =
    run_refines (emits zero_event ∷ emits zero_event ∷ takes ∷ takes ∷ []) small_core-IsRing

request_alloc-Requested_example :
    Requested small_core generic 5 (request_alloc small_core generic 5)
request_alloc-Requested_example =
    request_alloc-Requested generic 5 replicate-IsTable small_core-IsRing (omega arith)

request_alloc_iff_example : ((request_alloc asked generic 5).0 ≢ 0) ↔ Grantable asked generic 5
unfolding asked request_alloc mint_alloc_id emit_event find_free_slot find_index
request_alloc_iff_example = request_alloc_iff asked generic 5 asked-IsValid (omega arith)

provide_buffer-Provided_example :
    ((slot_of asked 1 ≡ none) × (provide_buffer asked 1 4096 8 ≡ (false, asked)))
    ⊎ ((s : Slot) × (slot_of asked 1 ≡ some s)
        × Provided asked 1 4096 8 s (provide_buffer asked 1 4096 8))
provide_buffer-Provided_example = provide_buffer-Provided 1 4096 8 asked-IsValid

detach_buffer-Detached_example :
    ((slot_of asked 1 ≡ none) × (detach_buffer asked 1 ≡ (none, asked)))
    ⊎ ((s : Slot) × (slot_of asked 1 ≡ some s) × Detached asked 1 s (detach_buffer asked 1))
detach_buffer-Detached_example = detach_buffer-Detached 1 asked-IsValid

-- A core whose buffer 1 is ready.
provided : Core
provided = (provide_buffer (next_event asked).2 1 4096 8).1

provided_pointer : buffer_ptr provided 1 ≡ 4096
unfolding provided asked request_alloc mint_alloc_id emit_event next_event find_free_slot find_index
    provide_buffer find_slot_by_id buffer_ptr
provided_pointer = refl

-- The one event of the full ring asks for the buffer 1.
overflow_strands_example :
    (slot_of (emit_event asked zero_event).1 1 ≡ some (pending_slot generic 1 5))
    × (count_if (mentions 1) (contents (emit_event asked zero_event).1) ≡ 0)
unfolding asked request_alloc mint_alloc_id emit_event find_free_slot find_index find_slot_by_id
overflow_strands_example =
    overflow_strands 1 zero_event (alloc_event generic 1 5) [] asked-IsRing refl refl refl refl
      (omega arith) refl refl

-- A core that has handed out the id 1 once, and whose counter has come round to it.
come_round : Core
come_round = record asked { next_alloc_id = 1; cnt = 0 }

request_reuses_id_example :
    ((request_alloc come_round generic 3).0 ≡ 1)
    × (count_if (has_id 1) (request_alloc come_round generic 3).1.bufs ≡ 2)
unfolding come_round asked request_alloc mint_alloc_id emit_event find_free_slot find_index
request_reuses_id_example =
    request_reuses_id come_round generic 3 (omega arith) (omega arith) (omega arith) (λ e. cc)
      (omega arith) (omega arith) refl

apply_config-Applied_example : Applied small_core defaults (apply_config small_core (some defaults))
apply_config-Applied_example = apply_config-Applied defaults small_core-IsRing
