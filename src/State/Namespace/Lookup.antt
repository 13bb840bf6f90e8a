-- ===== src/State/Namespace/Lookup.antt =====
-- A namespace as a partial function from keys to values, and what storing and removing do to it.
use edgehost.Prelude.{
  ℕ, ◌+◌, ◌≤◌, ◌≡◌, refl, ◌↔◌, true, false, not, inl, inr, ◌∷◌, ◌++◌, Option, none, some, some_inj,
  arith, Bool-cases, if◌then◌else◌, length, get_elem?, drop, take, take_of_le, take-append, ap,
  subst, sym, ◌∙◌, get_elem?-set_self, get_elem?-lt,
}
use edgehost.Prelude.Table.{
  count_if, count_if-set, count_if_pos, count_if_split, first, first-set_other, first_of_none,
  first_of_unique,
}
use edgehost.Prelude.Text.{Bytes, str_eq, eq_of_str_eq, str_eq_refl}
use edgehost.State.Check.{key_valid}
use edgehost.State.Namespace.{
  Entry, Ns, has_key, is_free, write_value, write_key, store, clear_entry, remove,
}
use edgehost.State.Namespace.Invariant.{
  IsValid, in_use, with_value, with_entry, without, kept, added, is_full, store-Stored, missing,
  gone, remove-Removed, bounded_key, with_value-IsValid, with_entry-IsValid,
}

-- The bytes that `edge_state_get` hands out.
abbrev pub value_of : Entry → Bytes
value_of e = take e.value_len e.value

abbrev pub value_at : Option Entry → Option Bytes
value_at none = none
value_at (some e) = some (value_of e)

abbrev pub lookup : Ns → Bytes → Option Bytes
lookup n key = value_at (first (has_key key) n.entries)

take-length-append : (xs ys : Bytes) → take (length xs) (xs ++ ys) ≡ xs
take-length-append xs ys =
    take-append (length xs) xs ys (omega arith) ∙ take_of_le (length xs) xs (omega arith)

-- The copy into the buffer is read back whole.
pub value_of-write_value : (value : Bytes) (e : Entry) → value_of (write_value value e) ≡ value
value_of-write_value value e = take-length-append value (0 ∷ drop (length value + 1) e.value)

has_key-other :
    (key k : Bytes) (e : Entry) → has_key key e ≡ true → str_eq key k ≡ false → has_key k e ≡ false
has_key-other key k e hit other =
    ground
      (arith, subst (λ j. str_eq j k ≡ false) (sym (eq_of_str_eq e.key key (ground arith))) other)

module _ {max : ℕ} {n : Ns} (v : IsValid max n) (i : ℕ) {e : Entry}
    (at : get_elem? n.entries i ≡ some e) where
  lookup-with_value :
      (key value : Bytes)
      → has_key key e ≡ true
      → length value ≤ max
      → (k : Bytes)
      → lookup (with_value n value i e) k ≡ (if str_eq key k then some value else lookup n k)
  lookup-with_value key value hit fits k = elim (Bool-cases (str_eq key k)) [
    | inl same ↦ rw same (
        rw
          (first_of_unique (has_key k) (with_value n value i e).entries i
            ((with_value-IsValid v i at key value hit fits).unique k)
            (get_elem?-set_self n.entries i (write_value value e) (get_elem?-lt n.entries i at))
            (subst (λ j. has_key j e ≡ true) (eq_of_str_eq key k same) hit))
          (ap some (value_of-write_value value e)))
    | inr other ↦ rw other (
        ap value_at (
          first-set_other (has_key k) n.entries i (write_value value e) at
            (has_key-other key k e hit other) (has_key-other key k e hit other)))
  ]

  lookup-with_entry :
      (key value : Bytes)
      → e.used ≡ false
      → count_if (has_key key) n.entries ≡ 0
      → key_valid key ≡ true
      → length value ≤ max
      → (k : Bytes)
      → lookup (with_entry n key value i e) k ≡ (if str_eq key k then some value else lookup n k)
  lookup-with_entry key value free new ok fits k =
      let w : Entry = write_value value (write_key key e) in
      let own : has_key key w ≡ true = rw (bounded_key key ok) (str_eq_refl key) in
      elim (Bool-cases (str_eq key k)) [
        | inl same ↦ rw same (
            rw
              (first_of_unique (has_key k) (with_entry n key value i e).entries i
                ((with_entry-IsValid v i at key value free new ok fits).unique k)
                (get_elem?-set_self n.entries i w (get_elem?-lt n.entries i at))
                (subst (λ j. has_key j w ≡ true) (eq_of_str_eq key k same) own))
              (ap some (value_of-write_value value (write_key key e))))
        | inr other ↦ rw other (
            ap value_at (
              first-set_other (has_key k) n.entries i w at (ground (arith, free))
                (has_key-other key k w own other)))
      ]

  lookup-without :
      (key : Bytes)
      → has_key key e ≡ true
      → (k : Bytes) → lookup (without n i e) k ≡ (if str_eq key k then none else lookup n k)
  lookup-without key hit k = elim (Bool-cases (str_eq key k)) [
    | inl same ↦ rw same (
        ap value_at (
          first_of_none (has_key k) (without n i e).entries
            (gone_count k (subst (λ j. has_key j e ≡ true) (eq_of_str_eq key k same) hit))))
    | inr other ↦ rw other (
        ap value_at (
          first-set_other (has_key k) n.entries i (clear_entry e) at
            (has_key-other key k e hit other) refl))
  ]
    where
      gone_count :
          (j : Bytes) → has_key j e ≡ true → count_if (has_key j) (without n i e).entries ≡ 0
      gone_count j h =
          ground (arith, v.unique j, count_if-set (has_key j) n.entries i (clear_entry e) at)

-- After storing a checked key and value, the key has that value and every other key what it had.
pub lookup-store :
    {max : ℕ} {n m : Ns} (key value : Bytes)
    → IsValid max n
    → key_valid key ≡ true
    → length value ≤ max
    → store n key value ≡ some m
    → (k : Bytes) → lookup m k ≡ (if str_eq key k then some value else lookup n k)
lookup-store {n = n} key value v ok fits h k = elim (store-Stored n key value) [
  | kept i e at hit r ↦
      subst (λ (w : Ns). lookup w k ≡ (if str_eq key k then some value else lookup n k))
        (some_inj (sym r ∙ h)) (lookup-with_value v i at key value hit fits k)
  | added i e at free new r ↦
      subst (λ (w : Ns). lookup w k ≡ (if str_eq key k then some value else lookup n k))
        (some_inj (sym r ∙ h)) (lookup-with_entry v i at key value free new ok fits k)
  | is_full _ _ r ↦ cc
]

pub lookup-remove :
    {max : ℕ} {n m : Ns} (key : Bytes)
    → IsValid max n
    → remove n key ≡ some m
    → (k : Bytes) → lookup m k ≡ (if str_eq key k then none else lookup n k)
lookup-remove {n = n} key v h k = elim (remove-Removed n key) [
  | missing _ r ↦ cc
  | gone i e at hit r ↦
      subst (λ (w : Ns). lookup w k ≡ (if str_eq key k then none else lookup n k))
        (some_inj (sym r ∙ h)) (lookup-without v i at key hit k)
]

lookup_present :
    {max : ℕ} {n : Ns} (key : Bytes) (i : ℕ) {e : Entry}
    → IsValid max n
    → get_elem? n.entries i ≡ some e
    → has_key key e ≡ true
    → lookup n key ≡ some (value_of e)
lookup_present {n = n} key i v at hit =
    ap value_at (first_of_unique (has_key key) n.entries i (v.unique key) at hit)

-- Storing fails exactly when the key is new and every slot is used.
pub store-none :
    {max : ℕ} (n : Ns) (key value : Bytes)
    → IsValid max n
    → (store n key value ≡ none) ↔ ((lookup n key ≡ none) × (n.count ≡ n.capacity))
store-none {max} n key value v = elim (store-Stored n key value) [
  | kept i e at hit r ↦ (λ h. cc, λ (none_there, _). cc (lookup_present {max = max} key i v at hit))
  | added i e at free new r ↦ (
    λ h. cc,
    λ (_, all_used). absurd (
        ground
          (arith, v.counted, v.sized, shares, count_if_pos is_free n.entries i at (ap not free))),
  )
  | is_full new used r ↦ (
    λ _. (
      ap value_at (first_of_none (has_key key) n.entries new),
      omega (arith, v.counted, v.sized, shares, used),
    ),
    λ _. r,
  )
]
  where
    shares : count_if in_use n.entries + count_if is_free n.entries ≡ length n.entries
    shares = count_if_split in_use is_free (λ x. ground arith) n.entries

-- Removing fails exactly when the key is not there.
pub remove-none :
    {max : ℕ} (n : Ns) (key : Bytes) → IsValid max n → (remove n key ≡ none) ↔ (lookup n key ≡ none)
remove-none n key v = elim (remove-Removed n key) [
  | missing c r ↦ (λ _. ap value_at (first_of_none (has_key key) n.entries c), λ _. r)
  | gone i e at hit r ↦ (λ h. cc, λ h. cc (lookup_present key i v at hit))
]
