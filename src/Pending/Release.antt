-- ===== src/Pending/Release.antt =====
-- What the finders return after `edge_pending_release`, `edge_pending_release_outbound` and
-- `edge_pending_release_inbound`.
use edgehost.Prelude.{
  ℕ, ◌+◌, ◌≡◌, refl, Bool, true, false, ◌⊎◌, inl, inr, none, some, arith, Bool-cases, Option-cases,
  some_inj, ◌∙◌, ◌==◌, if◌then◌else◌, sym, subst, get_elem?,
}
use edgehost.Prelude.Table.{
  count_if-set, count_if_pos, find_index-some, first, first-set_other, first_of_none,
}
use edgehost.Pending.{
  Entry, Table, zero_entry, has_inbound, has_outbound, find_inbound, find_outbound, release,
  release_inbound, release_outbound,
}
use edgehost.Pending.Invariant.{IsValid, without, release_lem, in_use, release-IsValid}
use edgehost.Pending.Lookup.{by_inbound, by_outbound, by_inbound-first, by_outbound-first}

-- The slot of an entry that a finder gives.
record Found (t : Table) (p : Entry → Bool) (i : ℕ) (e : Entry) : Type 0 where
  at_slot : get_elem? t.slots i ≡ some e
  passes : p e ≡ true
  live : e.used ≡ true

find_outbound-Found :
    (t : Table) (id i : ℕ)
    → find_outbound t id ≡ some i
    → (e : Entry) × Found t (has_outbound id) i e
unfolding find_outbound
find_outbound-Found t id i h =
    let (e, at, ok) = find_index-some (has_outbound id) t.slots i (ground arith) in
    (e, record { at_slot = at; passes = ok; live = ground arith })

module _ {t : Table} (v : IsValid t) (i : ℕ) {e : Entry} (at : get_elem? t.slots i ≡ some e)
    (u : e.used ≡ true) where
  first_inbound-without :
      (s : ℕ)
      → first (has_inbound s) (without t i).slots
        ≡ (if e.inbound_slot == s then none else first (has_inbound s) t.slots)
  first_inbound-without s = elim (Bool-cases (e.inbound_slot == s)) [
    | inl same ↦ rw same (
        first_of_none (has_inbound s) (without t i).slots
          (ground (arith, count_if-set (has_inbound s) t.slots i zero_entry at, v.one_inbound s)))
    | inr other ↦
        rw other (first-set_other (has_inbound s) t.slots i zero_entry at (ground arith) refl)
  ]

  first_outbound-without :
      (id : ℕ)
      → first (has_outbound id) (without t i).slots
        ≡ (if e.outbound_id == id then none else first (has_outbound id) t.slots)
  first_outbound-without id = elim (Bool-cases (e.outbound_id == id)) [
    | inl same ↦ rw same (
        first_of_none (has_outbound id) (without t i).slots (
          ground
            (arith, count_if-set (has_outbound id) t.slots i zero_entry at, v.one_outbound id)))
    | inr other ↦
        rw other (first-set_other (has_outbound id) t.slots i zero_entry at (ground arith) refl)
  ]

  -- Releasing a used entry: its inbound slot and its outbound id are found no more, every other
  -- lookup is as before, and one more slot is free.
  pub find-release :
      (s id : ℕ)
      → (by_inbound (release t i) s ≡ (if e.inbound_slot == s then none else by_inbound t s))
        × (by_outbound (release t i) id ≡ (if e.outbound_id == id then none else by_outbound t id))
        × ((release t i).count + 1 ≡ t.count)
  find-release s id =
      subst
        (λ (w : Table).
          (by_inbound w s ≡ (if e.inbound_slot == s then none else by_inbound t s))
          × (by_outbound w id ≡ (if e.outbound_id == id then none else by_outbound t id))
          × (w.count + 1 ≡ t.count))
        (sym (release_lem i v at u))
        (
          ground (
            arith,
            by_inbound-first (without t i) s,
            by_inbound-first t s,
            first_inbound-without s,
          ),
          ground (
            arith,
            by_outbound-first (without t i) id,
            by_outbound-first t id,
            first_outbound-without id,
          ),
          omega (arith, v.counted, count_if_pos in_use t.slots i at u),
        )

find_inbound-Found :
    (t : Table) (s i : ℕ) → find_inbound t s ≡ some i → (e : Entry) × Found t (has_inbound s) i e
unfolding find_inbound
find_inbound-Found t s i h =
    let (e, at, ok) = find_index-some (has_inbound s) t.slots i h in
    (e, record { at_slot = at; passes = ok; live = ground arith })

-- What `edge_pending_release_outbound` leaves.
pub record Released (t : Table) (e : Entry) (o : Bool × Table) : Type 0 where
  pub status : o.0 ≡ true
  pub valid : IsValid o.1
  pub inbound : (s : ℕ) → by_inbound o.1 s ≡ (if e.inbound_slot == s then none else by_inbound t s)
  pub outbound :
      (id : ℕ) → by_outbound o.1 id ≡ (if e.outbound_id == id then none else by_outbound t id)
  pub freed : o.1.count + 1 ≡ t.count

release-Released :
    {t : Table} (v : IsValid t) (i : ℕ) {e : Entry}
    → get_elem? t.slots i ≡ some e
    → e.used ≡ true
    → Released t e (true, release t i)
release-Released v i at u = record {
  status = refl;
  valid = release-IsValid i v;
  inbound = λ s. (find-release v i at u s 0).0;
  outbound = λ id. (find-release v i at u 0 id).1;
  freed = (find-release v i at u 0 0).2;
}

release_outbound_found :
    (t : Table) (id i : ℕ)
    → find_outbound t id ≡ some i
    → release_outbound t id ≡ (true, release t i)
unfolding release_outbound
release_outbound_found t id i h = rw (h, release_outbound)

-- The slot of an outbound id that is found, and what its release leaves.
pub by_outbound-Released :
    (t : Table) (id : ℕ) (e : Entry)
    → IsValid t
    → by_outbound t id ≡ some e
    → (i : ℕ) × (find_outbound t id ≡ some i) × Released t e (true, release t i)
by_outbound-Released t id e v h = elim (Option-cases (find_outbound t id)) [
  | inl f ↦ absurd (cc (rw f at h))
  | inr (i, f) ↦
      let (e2, at) = find_outbound-Found t id i f in
      let same : e2 ≡ e = some_inj (sym at.at_slot ∙ rw f at h) in
      (
        i,
        f,
        subst (λ x. Released t x (true, release t i)) same
            (release-Released v i at.at_slot at.live),
      )
]

-- On a valid table, `edge_pending_release_outbound`: with no entry of that outbound id it returns
-- -1 and changes nothing; else it returns 0, the entry's inbound slot and outbound id are found no
-- more, every other lookup is as before, the count falls by one and the invariant is kept.
pub release_outbound-Released :
    (t : Table) (id : ℕ)
    → IsValid t
    → ((by_outbound t id ≡ none) × (release_outbound t id ≡ (false, t)))
      ⊎ ((e : Entry) × (by_outbound t id ≡ some e) × Released t e (release_outbound t id))
unfolding release_outbound
release_outbound-Released t id v = elim (Option-cases (find_outbound t id)) [
  | inl h ↦ inl (rw h, rw (h, release_outbound))
  | inr (i, h) ↦
      let (e, f) = find_outbound-Found t id i h in
      inr (
        e,
        rw h f.at_slot,
        subst (Released t e) (sym (release_outbound_found t id i h))
            (release-Released v i f.at_slot f.live),
      )
]

release_inbound_found :
    (t : Table) (s i : ℕ) → find_inbound t s ≡ some i → release_inbound t s ≡ (true, release t i)
unfolding release_inbound
release_inbound_found t s i h = rw (h, release_inbound)

-- On a valid table, `edge_pending_release_inbound`: with no entry of that inbound slot it returns
-- -1 and changes nothing; else it returns 0, the entry's inbound slot and outbound id are found no
-- more, every other lookup is as before, the count falls by one and the invariant is kept.
pub release_inbound-Released :
    (t : Table) (s : ℕ)
    → IsValid t
    → ((by_inbound t s ≡ none) × (release_inbound t s ≡ (false, t)))
      ⊎ ((e : Entry) × (by_inbound t s ≡ some e) × Released t e (release_inbound t s))
unfolding release_inbound
release_inbound-Released t s v = elim (Option-cases (find_inbound t s)) [
  | inl h ↦ inl (rw h, rw (h, release_inbound))
  | inr (i, h) ↦
      let (e, f) = find_inbound-Found t s i h in
      inr (
        e,
        rw h f.at_slot,
        subst (Released t e) (sym (release_inbound_found t s i h))
            (release-Released v i f.at_slot f.live),
      )
]
