-- ===== src/Core/Buffers.antt =====
-- The buffer table of src/core/edgecore.c: buffers that the host owns and the core asks for.
pub mod Invariant
pub mod Slots
pub mod Provide
pub mod Request
pub mod Realloc
pub mod Overflow
use edgehost.Prelude.{
  ℕ, ◌+◌, ◌%◌, ◌^◌, Bool, true, false, not, ◌&&◌, ◌||◌, ◌++◌, Option, none, some, ltb, ◌==◌,
  if◌then◌else◌, get_elem?, set,
}
use edgehost.Prelude.Table.{find_index, count_if, deref}
use edgehost.Prelude.Text.{Bytes, text, bounded, decimal}
use edgehost.Core.Types.{
  EventType, BufKind, Event, zero_event, buf_kind_name, is_no_kind, reason_size,
}
use edgehost.Core.{Core, Slot, slot_free, slot_pending, slot_ready, zero_slot}
use edgehost.Core.Ring.{emit_event}

abbrev pub is_live : Slot → Bool
is_live s = elim s.state [ slot_free ↦ false | _ ↦ true ]

abbrev pub is_free : Slot → Bool
is_free s = not (is_live s)

abbrev pub is_pending : Slot → Bool
is_pending s = elim s.state [ slot_pending ↦ true | _ ↦ false ]

abbrev pub is_ready : Slot → Bool
is_ready s = elim s.state [ slot_ready ↦ true | _ ↦ false ]

abbrev pub has_id : ℕ → Slot → Bool
has_id id s = is_live s && s.alloc_id == id

abbrev pub ready_id : ℕ → Slot → Bool
ready_id id s = is_ready s && s.alloc_id == id

unfoldable pub find_slot_by_id : Core → ℕ → Option ℕ
find_slot_by_id c id = if id == 0 then none else find_index (has_id id) c.bufs

unfoldable pub find_free_slot : Core → Option ℕ
find_free_slot c = find_index is_free c.bufs

-- `mint_alloc_id`: ids are 32-bit and 0 is skipped.
unfoldable pub mint_alloc_id : Core → ℕ × Core
mint_alloc_id c =
    let id = if c.next_alloc_id == 0 then 1 else c.next_alloc_id in
    let next = (id + 1) % 2 ^ 32 in (id, record c { next_alloc_id = if next == 0 then 1 else next })

abbrev pub pending_slot : BufKind → ℕ → ℕ → Slot
pending_slot kind id size = record {
  state = slot_pending;
  kind = kind;
  alloc_id = id;
  ptr = 0;
  size = 0;
  requested = size;
}

unfoldable pub alloc_reason : BufKind → ℕ → Bytes
alloc_reason kind size =
    bounded reason_size (text "NEED_ALLOC " ++ buf_kind_name kind ++ text " size=" ++ decimal size)

abbrev pub alloc_event : BufKind → ℕ → ℕ → Event
alloc_event kind id size = record zero_event {
  type = EventType.need_alloc;
  reason = alloc_reason kind size;
  alloc_id = id;
  buf_kind = kind;
  size = size;
}

-- The part of `edgecore_request_alloc` after a free slot `i` is found. A full ring clears the slot
-- again.
unfoldable pub alloc_in : Core → ℕ → BufKind → ℕ → ℕ × Core
alloc_in c i kind size =
    let (id, c1) = mint_alloc_id c in
    let c2 = record c1 { bufs = set c1.bufs i (pending_slot kind id size) } in
    let (sent, c3) = emit_event c2 (alloc_event kind id size) in
    if sent then (id, c3) else (0, record c3 { bufs = set c3.bufs i zero_slot })

unfoldable pub request_alloc : Core → BufKind → ℕ → ℕ × Core
unfolding alloc_in
request_alloc c kind size =
    if size == 0 || is_no_kind kind
    then (0, c)
    else elim (find_free_slot c) [ none ↦ (0, c) | some i ↦ alloc_in c i kind size ]

unfoldable pub realloc_reason : BufKind → ℕ → ℕ → Bytes
realloc_reason kind id size = bounded reason_size (
    text "NEED_REALLOC "
    ++ buf_kind_name kind
    ++ text " id="
    ++ decimal id
    ++ text " size="
    ++ decimal size)

abbrev pub realloc_event : ℕ → Slot → ℕ → Event
realloc_event id s size = record {
  type = EventType.need_realloc;
  reason = realloc_reason s.kind id size;
  alloc_id = id;
  buf_kind = s.kind;
  size = size;
  old_ptr = s.ptr;
  old_size = s.size;
}

-- The part of `edgecore_request_realloc` after the slot `i`, which holds `s`, is found.
realloc_in : Core → ℕ → ℕ → Slot → ℕ → Bool × Core
realloc_in c id i s size =
    if not (is_ready s)
    then (false, c)
    else let grown = record s { state = slot_pending; requested = size } in
      let (sent, c2) =
        emit_event (record c { bufs = set c.bufs i grown }) (realloc_event id grown size) in
      if sent then (true, c2) else (
        false,
        record c2 {
          bufs = set c2.bufs i (record grown { state = slot_ready; requested = grown.size });
        },
      )

unfoldable pub request_realloc : Core → ℕ → ℕ → Bool × Core
unfolding realloc_in
request_realloc c id size =
    if id == 0 || size == 0 then (false, c) else elim (find_slot_by_id c id) [
      | none ↦ (false, c)
      | some i ↦ elim (get_elem? c.bufs i) [ none ↦ (false, c) | some s ↦ realloc_in c id i s size ]
    ]

provide_in : Core → ℕ → Slot → ℕ → ℕ → Bool × Core
provide_in c i s ptr size =
    if not (is_pending s) then (false, c) else if ltb size s.requested then (false, c) else (
      true,
      record c { bufs = set c.bufs i (record s { ptr = ptr; size = size; state = slot_ready }) },
    )

unfoldable pub provide_buffer : Core → ℕ → ℕ → ℕ → Bool × Core
unfolding provide_in
provide_buffer c id ptr size =
    if id == 0 || ptr == 0 || size == 0 then (false, c) else elim (find_slot_by_id c id) [
      | none ↦ (false, c)
      | some i ↦ elim (get_elem? c.bufs i) [
        | none ↦ (false, c)
        | some s ↦ provide_in c i s ptr size
      ]
    ]

-- The option is what goes through `out_ptr` and `out_size`.
unfoldable pub detach_buffer : Core → ℕ → Option (ℕ × ℕ) × Core
detach_buffer c id = if id == 0 then (none, c) else elim (find_slot_by_id c id) [
  | none ↦ (none, c)
  | some i ↦ elim (get_elem? c.bufs i) [
    | none ↦ (none, c)
    | some s ↦ (some (s.ptr, s.size), record c { bufs = set c.bufs i zero_slot })
  ]
]

-- The ready slot that `edgecore_buffer_ptr` and `edgecore_buffer_size` look for.
unfoldable pub find_ready : Core → ℕ → Option Slot
find_ready c id = if id == 0 then none else deref c.bufs (find_index (ready_id id) c.bufs)

unfoldable pub buffer_ptr : Core → ℕ → ℕ
unfolding find_ready
buffer_ptr c id = elim (find_ready c id) [ none ↦ 0 | some s ↦ s.ptr ]

unfoldable pub buffer_size : Core → ℕ → ℕ
unfolding find_ready
buffer_size c id = elim (find_ready c id) [ none ↦ 0 | some s ↦ s.size ]

pub buffer_count : Core → ℕ
buffer_count c = count_if is_ready c.bufs
