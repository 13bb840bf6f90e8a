-- ===== src/Core/Buffers/Slots.antt =====
-- What writing one slot does to the buffer that each id names.
use edgehost.Prelude.{
  ℕ, ◌≡◌, ◌≢◌, true, false, List, Option, none, some, arith, set, get_elem?, ◌==◌, if◌then◌else◌,
  Bool-cases, Option-cases, inl, inr, ap, ◌∙◌, sym, get_elem?-set_self, get_elem?-lt,
}
use edgehost.Prelude.Table.{
  count_if-set, first, first-set_other, first_of_none, first_of_unique, find_index-some,
}
use edgehost.Core.{Core, Slot}
use edgehost.Core.Buffers.{is_live, has_id, find_slot_by_id}
use edgehost.Core.Buffers.Invariant.{IsTable, slot_of, slot_of-first}

-- Where the slot that an id names stands.
pub record At (c : Core) (id i : ℕ) (s : Slot) : Type 0 where
  pub found : find_slot_by_id c id ≡ some i
  pub at_slot : get_elem? c.bufs i ≡ some s
  pub live : is_live s ≡ true
  pub named : s.alloc_id ≡ id
  pub nonzero : id ≢ 0

pub slot_of-At : (c : Core) (id : ℕ) {s : Slot} → slot_of c id ≡ some s → (i : ℕ) × At c id i s
unfolding find_slot_by_id
slot_of-At c id {s} h = elim (Option-cases (find_slot_by_id c id)) [
  | inl e ↦ absurd (ground arith)
  | inr (i, e) ↦
      let (w, at, hit) = find_index-some (has_id id) c.bufs i (ground arith) in
      let same : w ≡ s = ground arith in
      (
        i,
        record {
          found = e;
          at_slot = ground arith;
          live = ap is_live (sym same) ∙ ground arith;
          named = ap (λ (x : Slot). x.alloc_id) (sym same) ∙ ground arith;
          nonzero = ground arith;
        },
      )
]

module _ {bufs : List Slot} {next : ℕ} (v : IsTable bufs next) (i : ℕ) {s : Slot} (w : Slot)
    (at : get_elem? bufs i ≡ some s) where
  -- A used slot is found under its id.
  pub first-set_live :
      (later id : ℕ)
      → IsTable (set bufs i w) later
      → is_live w ≡ true
      → (is_live s ≡ true → s.alloc_id ≡ w.alloc_id)
      → first (has_id id) (set bufs i w)
        ≡ (if w.alloc_id == id then some w else first (has_id id) bufs)
  first-set_live later id u live same = elim (Bool-cases (w.alloc_id == id)) [
    | inl own ↦ rw own (
        first_of_unique (has_id id) (set bufs i w) i (u.unique id)
          (get_elem?-set_self bufs i w (get_elem?-lt bufs i at)) (ground arith))
    | inr other ↦ rw other (first-set_other (has_id id) bufs i w at (ground arith) (ground arith))
  ]

  -- A cleared slot is not found under the id that it had.
  pub first-set_clear :
      (id : ℕ)
      → is_live s ≡ true
      → is_live w ≡ false
      → first (has_id id) (set bufs i w)
        ≡ (if s.alloc_id == id then none else first (has_id id) bufs)
  first-set_clear id live gone = elim (Bool-cases (s.alloc_id == id)) [
    | inl own ↦ rw own (
        first_of_none (has_id id) (set bufs i w)
          (ground (arith, v.unique id, count_if-set (has_id id) bufs i w at)))
    | inr other ↦ rw other (first-set_other (has_id id) bufs i w at (ground arith) (ground arith))
  ]

  -- Clearing a slot that was free changes nothing that is found.
  pub first-set_free :
      (id : ℕ)
      → is_live s ≡ false
      → is_live w ≡ false
      → first (has_id id) (set bufs i w) ≡ first (has_id id) bufs
  first-set_free id was gone = first-set_other (has_id id) bufs i w at (ground arith) (ground arith)

-- Two cores whose tables give the same slot for an id name the same buffer.
pub slot_of_table :
    (c : Core) (id : ℕ) (bufs : List Slot) (o : Option Slot)
    → c.bufs ≡ bufs
    → id ≢ 0
    → first (has_id id) bufs ≡ o
    → slot_of c id ≡ o
slot_of_table c id bufs o e nz h = slot_of-first c id ∙ elim (Bool-cases (id == 0)) [
  | inl z ↦ absurd (ground arith)
  | inr n ↦ rw n (ap (first (has_id id)) e ∙ h)
]
