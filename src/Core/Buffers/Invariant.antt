-- ===== src/Core/Buffers/Invariant.antt =====
-- The invariant of the buffer table, for the slots and the next id, and the buffer that an id names.
use edgehost.Prelude.{
  ℕ, ◌≤◌, ◌<◌, ◌≡◌, refl, Bool, true, false, not, ◌&&◌, ◌||◌, List, Option, none, some, arith,
  length, set, get_elem?, length-set, length-replicate, replicate, ltb, ◌==◌, if◌then◌else◌,
  Bool-cases, inl, inr, subst,
}
use edgehost.Prelude.Table.{
  count_if, count_if-set, count_if_bound, count_if_mono, count_if-replicate, deref,
  deref-find_index, first,
}
use edgehost.Core.{Core, Slot, zero_slot, max_bufs}
use edgehost.Core.Types.{Event}
use edgehost.Core.Ring.{emit_event}
use edgehost.Core.Buffers.{is_live, is_ready, has_id, find_slot_by_id}

-- A used slot whose id is not one that was handed out, or a ready one without a buffer of the size
-- that was asked for.
abbrev pub is_malformed : ℕ → Slot → Bool
is_malformed next s =
    (is_live s && not (ltb 0 s.alloc_id && ltb s.alloc_id next))
    || (is_ready s && (s.ptr == 0 || s.size == 0 || ltb s.size s.requested))

pub record IsTable (bufs : List Slot) (next : ℕ) : Type 0 where
  pub sized : length bufs ≡ max_bufs
  pub positive : 0 < next
  pub unique : (id : ℕ) → count_if (has_id id) bufs ≤ 1
  pub formed : count_if (is_malformed next) bufs ≡ 0

abbrev pub IsValid : Core → Type 0
IsValid c = IsTable c.bufs c.next_alloc_id

pub replicate-IsTable : IsTable (replicate max_bufs zero_slot) 1
replicate-IsTable = record {
  sized = length-replicate max_bufs zero_slot;
  positive = omega arith;
  unique = λ id. omega (arith, count_if-replicate (has_id id) max_bufs zero_slot refl);
  formed = count_if-replicate (is_malformed 1) max_bufs zero_slot refl;
}

-- What a slot may be overwritten with: nothing, a buffer of the same id, or one of a new id.
pub data Fits (bufs : List Slot) (s w : Slot) : Type 0 where
  cleared : is_live w ≡ false → Fits bufs s w
  same_id : is_live s ≡ true → w.alloc_id ≡ s.alloc_id → Fits bufs s w
  new_id : is_live s ≡ false → count_if (has_id w.alloc_id) bufs ≡ 0 → Fits bufs s w

module _ {bufs : List Slot} {next : ℕ} (v : IsTable bufs next) (i : ℕ) {s : Slot} (w : Slot)
    (at : get_elem? bufs i ≡ some s) where
  set_unique : Fits bufs s w → (id : ℕ) → count_if (has_id id) (set bufs i w) ≤ 1
  set_unique (cleared e) id = ground (arith, v.unique id, count_if-set (has_id id) bufs i w at)
  set_unique (same_id e h) id = ground (arith, v.unique id, count_if-set (has_id id) bufs i w at)
  set_unique (new_id e h) id = elim (Bool-cases (has_id id w)) [
    | inl hit ↦
        let none_yet : count_if (has_id id) bufs ≡ 0 =
          subst (λ j. count_if (has_id j) bufs ≡ 0) (ground arith) h in
        ground (arith, count_if-set (has_id id) bufs i w at)
    | inr miss ↦ ground (arith, v.unique id, count_if-set (has_id id) bufs i w at)
  ]

  -- Overwriting a slot keeps the invariant.
  pub set-IsTable :
      (later : ℕ)
      → next ≤ later
      → Fits bufs s w
      → is_malformed later w ≡ false
      → IsTable (set bufs i w) later
  set-IsTable later grows f ok = record {
    sized = omega (arith, v.sized, length-set bufs i w);
    positive = omega (arith, v.positive);
    unique = set_unique f;
    formed = ground (arith, v.formed, older, count_if-set (is_malformed later) bufs i w at);
  }
    where
      older : count_if (is_malformed later) bufs ≤ count_if (is_malformed next) bufs
      older =
          count_if_mono (is_malformed later) (is_malformed next) (λ x h. ground (arith, grows)) bufs

-- What is known of a slot of a valid table.
pub formed_slot :
    {bufs : List Slot} {next : ℕ} (i : ℕ) {s : Slot}
    → IsTable bufs next
    → get_elem? bufs i ≡ some s
    → is_malformed next s ≡ false
formed_slot {bufs} {next} i v at =
    ground (arith, v.formed, count_if_bound (is_malformed next) bufs i at)

-- No used slot has an id that was not handed out yet.
pub fresh_id : {bufs : List Slot} {next : ℕ} → IsTable bufs next → count_if (has_id next) bufs ≡ 0
fresh_id {bufs} {next} v =
    omega
      (arith, v.formed, count_if_mono (has_id next) (is_malformed next) (λ s h. ground arith) bufs)

-- The slot that an id names.
abbrev pub slot_of : Core → ℕ → Option Slot
slot_of c id = deref c.bufs (find_slot_by_id c id)

pub slot_of-first :
    (c : Core) (id : ℕ) → slot_of c id ≡ (if id == 0 then none else first (has_id id) c.bufs)
unfolding find_slot_by_id
slot_of-first c id = elim (Bool-cases (id == 0)) [
  | inl z ↦ rw z
  | inr nz ↦ rw nz (deref-find_index (has_id id) c.bufs)
]

-- The ring does not touch the table.
pub bufs-emit_event : (c : Core) (ev : Event) → (emit_event c ev).1.bufs ≡ c.bufs
unfolding emit_event
bufs-emit_event c ev = ground arith

pub next_alloc_id-emit_event :
    (c : Core) (ev : Event) → (emit_event c ev).1.next_alloc_id ≡ c.next_alloc_id
unfolding emit_event
next_alloc_id-emit_event c ev = ground arith
