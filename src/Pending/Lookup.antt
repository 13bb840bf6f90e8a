-- ===== src/Pending/Lookup.antt =====
-- What the finders return before and after `edge_pending_insert`.
use edgehost.Prelude.{
  ℕ, ◌≡◌, ◌↔◌, Bool, true, false, inl, inr, Option, none, some, arith, Bool-cases, ◌==◌,
  if◌then◌else◌, sym, subst, ap, ◌∙◌, get_elem?-set_self, get_elem?-lt,
}
use edgehost.Prelude.Table.{deref, deref-find_index, first, first-set_other, first_of_unique}
use edgehost.Pending.{
  Entry, Table, Request, insert, filled, has_inbound, has_outbound, find_inbound, find_outbound,
}
use edgehost.Pending.Invariant.{
  IsValid, Accepts, Placed, with_entry-IsValid, insert-Accepts, insert-Placed, with_entry,
}

-- On a valid table `edge_pending_insert` returns 0 exactly when the plugin and the outbound id are not
-- 0, the table is not full and no used slot has the inbound slot or the outbound id; otherwise it
-- returns -1 and leaves the table as it was.
pub insert_lem :
    (t : Table) (r : Request)
    → IsValid t
    → (((insert t r).0 ≡ true) ↔ Accepts t r) × ((insert t r).0 ≡ false → (insert t r).1 ≡ t)
insert_lem t r v = elim (insert-Accepts t r) [
  | inl e ↦ (
    (λ h. ground arith, λ a. ap (λ (o : Bool × Table). o.0) (insert-Placed r v a).2.result),
    λ h. ap (λ (o : Bool × Table). o.1) e,
  )
  | inr a ↦
      let (i, e, p) = insert-Placed r v a in
      ((λ _. a, λ _. ap (λ (o : Bool × Table). o.0) p.result), λ h. ground (arith, p.result))
]

-- The entry that `edge_pending_find_outbound` points to, and `edge_pending_find_inbound`.
abbrev pub by_outbound : Table → ℕ → Option Entry
by_outbound t id = deref t.slots (find_outbound t id)

abbrev pub by_inbound : Table → ℕ → Option Entry
by_inbound t s = deref t.slots (find_inbound t s)

pub by_inbound-first : (t : Table) (s : ℕ) → by_inbound t s ≡ first (has_inbound s) t.slots
unfolding find_inbound
by_inbound-first t s = deref-find_index (has_inbound s) t.slots

pub by_outbound-first :
    (t : Table) (id : ℕ)
    → by_outbound t id ≡ (if id == 0 then none else first (has_outbound id) t.slots)
unfolding find_outbound
by_outbound-first t id = elim (Bool-cases (id == 0)) [
  | inl z ↦ rw z
  | inr nz ↦ rw nz (deref-find_index (has_outbound id) t.slots)
]

module _ {t : Table} (r : Request) (v : IsValid t) where
  inbound-Placed :
      (i : ℕ) (e : Entry) (s : ℕ)
      → Accepts t r
      → Placed t r i e
      → first (has_inbound s) (with_entry t i r).slots
        ≡ (if r.inbound_slot == s then some (filled r) else first (has_inbound s) t.slots)
  unfolding filled
  inbound-Placed i e s a p = elim (Bool-cases (r.inbound_slot == s)) [
    | inl same ↦ rw same (
        first_of_unique (has_inbound s) (with_entry t i r).slots i
          ((with_entry-IsValid r v i e a p).one_inbound s)
          (get_elem?-set_self t.slots i (filled r) (get_elem?-lt t.slots i p.at_slot))
          (ground arith))
    | inr other ↦ rw other (
        first-set_other (has_inbound s) t.slots i (filled r) p.at_slot (ground (arith, p.was_free))
          (ground arith))
  ]

  outbound-Placed :
      (i : ℕ) (e : Entry) (id : ℕ)
      → Accepts t r
      → Placed t r i e
      → first (has_outbound id) (with_entry t i r).slots
        ≡ (if r.outbound_id == id then some (filled r) else first (has_outbound id) t.slots)
  unfolding filled
  outbound-Placed i e id a p = elim (Bool-cases (r.outbound_id == id)) [
    | inl same ↦ rw same (
        first_of_unique (has_outbound id) (with_entry t i r).slots i
          ((with_entry-IsValid r v i e a p).one_outbound id)
          (get_elem?-set_self t.slots i (filled r) (get_elem?-lt t.slots i p.at_slot))
          (ground arith))
    | inr other ↦ rw other (
        first-set_other (has_outbound id) t.slots i (filled r) p.at_slot
          (ground (arith, p.was_free)) (ground arith))
  ]

  -- After an insertion that returns 0, the inbound slot finds the new entry, and every other slot
  -- finds what it found before.
  pub by_inbound-insert :
      Accepts t r
      → (s : ℕ)
      → by_inbound (insert t r).1 s
        ≡ (if r.inbound_slot == s then some (filled r) else by_inbound t s)
  by_inbound-insert a s =
      let (i, e, p) = insert-Placed r v a in
      subst
        (λ (o : Bool × Table).
          by_inbound o.1 s ≡ (if r.inbound_slot == s then some (filled r) else by_inbound t s))
        (sym p.result)
        (by_inbound-first (with_entry t i r) s
          ∙ inbound-Placed i e s a p
          ∙ sym
              (ap (λ o. if r.inbound_slot == s then some (filled r) else o) (by_inbound-first t s)))

  pub by_outbound-insert :
      Accepts t r
      → (id : ℕ)
      → by_outbound (insert t r).1 id
        ≡ (if r.outbound_id == id then some (filled r) else by_outbound t id)
  by_outbound-insert a id =
      let (i, e, p) = insert-Placed r v a in
      subst
        (λ (o : Bool × Table).
          by_outbound o.1 id ≡ (if r.outbound_id == id then some (filled r) else by_outbound t id))
        (sym p.result)
        (ground (
          arith,
          by_outbound-first (with_entry t i r) id,
          by_outbound-first t id,
          outbound-Placed i e id a p,
          a.outbound_set,
        ))

  -- On a valid table, both finders after an `edge_pending_insert` that returned 0: they give the
  -- new entry for its inbound slot and its outbound id, and for every other what they gave before.
  pub find-insert :
      (insert t r).0 ≡ true
      → (s id : ℕ)
      → (by_inbound (insert t r).1 s
          ≡ (if r.inbound_slot == s then some (filled r) else by_inbound t s))
        × (by_outbound (insert t r).1 id
            ≡ (if r.outbound_id == id then some (filled r) else by_outbound t id))
  find-insert h s id =
      let a = (insert_lem t r v).0.0 h in (by_inbound-insert a s, by_outbound-insert a id)
