-- ===== src/Pending/Invariant.antt =====
-- The invariant of the pending table, and that every operation keeps it.
use edgehost.Prelude.{
  ℕ, ◌+◌, ◌-◌, ◌≤◌, ◌<◌, ◌≡◌, refl, ◌≢◌, Bool, true, false, ◌&&◌, ◌||◌, ◌⊎◌, inl, inr, none, some,
  arith, Bool-cases, Option-cases, ◌==◌, leb, if◌then◌else◌, dec_lt, sym, subst, length, get_elem?,
  set, replicate, some_inj, length-set, length-replicate,
}
use edgehost.Prelude.Table.{
  find_index, count_if, count_if-set, count_if_split, count_if_pos, count_if-replicate,
  find_index-none, find_index-some, find_index_of_count, find_index_of_pos,
}
use edgehost.Pending.{
  default_cap, Entry, Table, Request, zero_entry, create, insert, place, filled, has_inbound,
  has_outbound, find_inbound, find_outbound, release, release_entry,
}
use edgehost.Pending.Scan.{is_free, scan_lem, scan_duplicate}

abbrev pub in_use : Entry → Bool
in_use e = e.used

-- An entry that `edge_pending_insert` would not have accepted.
abbrev pub is_malformed : Entry → Bool
is_malformed e = e.used && (e.plugin == 0 || e.outbound_id == 0)

-- `count` is the number of used slots, no two used slots share an inbound slot or an outbound id,
-- and every used slot has a plugin and an outbound id.
pub record IsValid (t : Table) : Type 0 where
  pub sized : length t.slots ≡ t.cap
  pub counted : t.count ≡ count_if in_use t.slots
  pub one_inbound : (s : ℕ) → count_if (has_inbound s) t.slots ≤ 1
  pub one_outbound : (id : ℕ) → count_if (has_outbound id) t.slots ≤ 1
  pub formed : count_if is_malformed t.slots ≡ 0

-- When `edge_pending_insert` accepts a request.
pub record Accepts (t : Table) (r : Request) : Type 0 where
  pub plugin_set : r.plugin ≢ 0
  pub outbound_set : r.outbound_id ≢ 0
  pub room : t.count < t.cap
  pub new_inbound : find_inbound t r.inbound_slot ≡ none
  pub new_outbound : find_outbound t r.outbound_id ≡ none

-- The table after an insertion into slot `i`.
abbrev pub with_entry : Table → ℕ → Request → Table
with_entry t i r = record t { slots = set t.slots i (filled r); count = t.count + 1 }

pub record Placed (t : Table) (r : Request) (i : ℕ) (e : Entry) : Type 0 where
  pub at_slot : get_elem? t.slots i ≡ some e
  pub was_free : e.used ≡ false
  pub no_inbound : count_if (has_inbound r.inbound_slot) t.slots ≡ 0
  pub no_outbound : count_if (has_outbound r.outbound_id) t.slots ≡ 0
  pub result : insert t r ≡ (true, with_entry t i r)

free_slot :
    {t : Table} → IsValid t → t.count < t.cap → (i : ℕ) × (find_index is_free t.slots ≡ some i)
free_slot {t} v h =
    find_index_of_pos is_free t.slots
      (omega (arith, v.sized, v.counted, count_if_split in_use is_free (λ e. ground arith) t.slots))

pub insert-Placed :
    {t : Table} (r : Request) → IsValid t → Accepts t r → (i : ℕ) × (e : Entry) × Placed t r i e
unfolding insert place find_inbound find_outbound
insert-Placed {t} r v a = (
  i,
  e,
  record {
    at_slot = spot.1;
    was_free = ground arith;
    no_inbound = ci;
    no_outbound = co;
    result = ground (
      arith,
      scan_lem r.inbound_slot r.outbound_id t.slots 0 none ci co,
      a.plugin_set,
      a.outbound_set,
    );
  },
)
  where
    ci : count_if (has_inbound r.inbound_slot) t.slots ≡ 0
    ci = find_index-none _ t.slots a.new_inbound

    co : count_if (has_outbound r.outbound_id) t.slots ≡ 0
    co = find_index-none _ t.slots (ground (arith, a.outbound_set, a.new_outbound))

    i : ℕ
    i = (free_slot v a.room).0

    spot : (x : Entry) × (get_elem? t.slots i ≡ some x) × (is_free x ≡ true)
    spot = find_index-some is_free t.slots i (free_slot v a.room).1

    e : Entry
    e = spot.0

refused_duplicate :
    (t : Table) (r : Request)
    → 0
      < count_if (has_inbound r.inbound_slot) t.slots
        + count_if (has_outbound r.outbound_id) t.slots
    → insert t r ≡ (false, t)
unfolding insert place
refused_duplicate t r h =
    ground (arith, scan_duplicate r.inbound_slot r.outbound_id t.slots 0 none h)

unguarded :
    (t : Table) (r : Request)
    → find_index (has_inbound r.inbound_slot) t.slots ≡ none
    → find_index (has_outbound r.outbound_id) t.slots ≡ none
    → (insert t r ≡ (false, t)) ⊎ Accepts t r
unfolding insert find_inbound find_outbound
unguarded t r ni no_out =
    elim (Bool-cases (r.plugin == 0 || r.outbound_id == 0 || leb t.cap t.count)) [
      | inl bad ↦ inl (ground arith)
      | inr fine ↦ inr (record {
        plugin_set = ground arith;
        outbound_set = ground arith;
        room = ground arith;
        new_inbound = ni;
        new_outbound = ground arith;
      })
    ]

-- An insertion returns -1 and leaves the table as it was, unless the request is acceptable.
pub insert-Accepts : (t : Table) (r : Request) → (insert t r ≡ (false, t)) ⊎ Accepts t r
insert-Accepts t r =
    elim (dec_lt 0 (
      count_if (has_inbound r.inbound_slot) t.slots
      + count_if (has_outbound r.outbound_id) t.slots)) [
        | yes dup ↦ inl (refused_duplicate t r dup)
        | no new ↦ go (omega arith) (omega arith)
      ]
  where
    go :
        count_if (has_inbound r.inbound_slot) t.slots ≡ 0
        → count_if (has_outbound r.outbound_id) t.slots ≡ 0
        → (insert t r ≡ (false, t)) ⊎ Accepts t r
    go ci co = unguarded t r (find_index_of_count _ t.slots ci) (find_index_of_count _ t.slots co)

module _ {t : Table} (r : Request) (v : IsValid t) where
  pub with_entry-IsValid :
      (i : ℕ) (e : Entry) → Accepts t r → Placed t r i e → IsValid (with_entry t i r)
  unfolding filled
  with_entry-IsValid i e a p = record {
    sized = omega (arith, length-set t.slots i (filled r), v.sized);
    counted =
        ground (arith, count_if-set in_use t.slots i (filled r) p.at_slot, p.was_free, v.counted);
    one_inbound = λ s. ground (
      arith,
      count_if-set (has_inbound s) t.slots i (filled r) p.at_slot,
      p.was_free,
      v.one_inbound s,
      p.no_inbound,
    );
    one_outbound = λ id. ground (
      arith,
      count_if-set (has_outbound id) t.slots i (filled r) p.at_slot,
      p.was_free,
      v.one_outbound id,
      p.no_outbound,
    );
    formed = ground (
      arith,
      count_if-set is_malformed t.slots i (filled r) p.at_slot,
      p.was_free,
      v.formed,
      a.plugin_set,
      a.outbound_set,
    );
  }

-- `edge_pending_insert` keeps the invariant.
pub insert-IsValid : {t : Table} (r : Request) → IsValid t → IsValid (insert t r).1
insert-IsValid {t} r v = elim (insert-Accepts t r) [
  | inl e ↦ subst (λ o. IsValid o.1) (sym e) v
  | inr a ↦
      let (i, e, p) = insert-Placed r v a in
      subst (λ o. IsValid o.1) (sym p.result) (with_entry-IsValid r v i e a p)
]

-- Erasing a used slot.
abbrev pub without : Table → ℕ → Table
without t i = record t { slots = set t.slots i zero_entry; count = t.count - 1 }

pub release_lem :
    {t : Table} (i : ℕ) {e : Entry}
    → IsValid t
    → get_elem? t.slots i ≡ some e
    → e.used ≡ true
    → release t i ≡ without t i
unfolding release release_entry
release_lem {t} i {e} v h u = ground (arith, v.counted, count_if_pos in_use t.slots i h u)

pub without-IsValid :
    {t : Table} (i : ℕ) {e : Entry}
    → IsValid t
    → get_elem? t.slots i ≡ some e
    → e.used ≡ true
    → IsValid (without t i)
without-IsValid {t} i v h u = record {
  sized = omega (arith, length-set t.slots i zero_entry, v.sized);
  counted = ground (arith, count_if-set in_use t.slots i zero_entry h, v.counted);
  one_inbound =
      λ s. ground (arith, count_if-set (has_inbound s) t.slots i zero_entry h, v.one_inbound s);
  one_outbound = λ id.
      ground (arith, count_if-set (has_outbound id) t.slots i zero_entry h, v.one_outbound id);
  formed = ground (arith, count_if-set is_malformed t.slots i zero_entry h, v.formed);
}

release_outside : (t : Table) (i : ℕ) → get_elem? t.slots i ≡ none → release t i ≡ t
unfolding release
release_outside t i h = ground arith

release_unused :
    (t : Table) (i : ℕ) {e : Entry}
    → get_elem? t.slots i ≡ some e
    → e.used ≡ false
    → release t i ≡ t
unfolding release release_entry
release_unused t i h f = ground arith

fresh : (n : ℕ) → IsValid (record { slots = replicate n zero_entry; cap = n; count = 0 })
fresh n = record {
  sized = length-replicate n zero_entry;
  counted = sym (count_if-replicate in_use n zero_entry refl);
  one_inbound = λ s. omega (arith, count_if-replicate (has_inbound s) n zero_entry refl);
  one_outbound = λ id. omega (arith, count_if-replicate (has_outbound id) n zero_entry refl);
  formed = count_if-replicate is_malformed n zero_entry refl;
}

-- `edge_pending_release` keeps the invariant, whatever the pointer.
pub release-IsValid : {t : Table} (i : ℕ) → IsValid t → IsValid (release t i)
release-IsValid {t} i v = elim (Option-cases (get_elem? t.slots i)) [
  | inl e ↦ subst IsValid (sym (release_outside t i e)) v
  | inr (e, h) ↦ elim (Bool-cases e.used) [
    | inl u ↦ subst IsValid (sym (release_lem i v h u)) (without-IsValid i v h u)
    | inr f ↦ subst IsValid (sym (release_unused t i h f)) v
  ]
]

-- The table that `edge_pending_create` makes satisfies the invariant, and is empty.
pub create-IsValid :
    (n : ℕ) {t : Table} → create n true ≡ some t → IsValid t × (t.count ≡ 0) × (0 < t.cap)
unfolding create
create-IsValid n {t} e =
    subst (λ r. IsValid r × (r.count ≡ 0) × (0 < r.cap)) (some_inj e)
      (fresh (if n == 0 then default_cap else n), refl, ground arith)
