-- ===== src/State/Namespace/Invariant.antt =====
-- The invariant of one namespace, and that storing and removing keep it.
use edgehost.Prelude.{
  ℕ, ◌+◌, ◌-◌, ◌≤◌, ◌<◌, ◌≡◌, Bool, true, false, not, ◌&&◌, ◌||◌, inl, inr, List, ◌∷◌, none, some,
  some_inj, arith, Bool-cases, Option-cases, ◌==◌, ltb, if◌then◌else◌, length, get_elem?, set, drop,
  length-set, length-append, length-drop, take_of_le, subst, sym, ◌∙◌,
}
use edgehost.Prelude.Table.{
  count_if, count_if-set, count_if_pos, count_if_bound, find_index-none, find_index-some,
}
use edgehost.Prelude.Text.{Bytes, bounded, eq_of_str_eq}
use edgehost.State.Check.{key_valid, key_max}
use edgehost.State.Namespace.{
  Entry, Ns, has_key, is_free, find_entry, find_free, write_value, write_key, update_entry, store,
  clear_entry, remove,
}

abbrev pub in_use : Entry → Bool
in_use e = e.used

-- A used entry that `edge_state_put` would not have written.
abbrev pub is_malformed : ℕ → Entry → Bool
is_malformed max e = e.used && (not (key_valid e.key) || ltb max e.value_len)

-- A value buffer of another size than the `max_value + 1` bytes allocated for it.
abbrev pub is_missized : ℕ → Entry → Bool
is_missized max e = not (length e.value == max + 1)

pub record IsValid (max : ℕ) (n : Ns) : Type 0 where
  pub sized : length n.entries ≡ n.capacity
  pub counted : n.count ≡ count_if in_use n.entries
  pub unique : (key : Bytes) → count_if (has_key key) n.entries ≤ 1
  pub formed : count_if (is_malformed max) n.entries ≡ 0
  pub buffered : count_if (is_missized max) n.entries ≡ 0

pub key_valid-length : (key : Bytes) → key_valid key ≡ true → length key < key_max
unfolding key_valid
key_valid-length key h = ground arith

-- A valid key is kept whole.
pub bounded_key : (key : Bytes) → key_valid key ≡ true → bounded key_max key ≡ key
unfolding bounded
bounded_key key h = take_of_le (key_max - 1) key (omega (arith, key_valid-length key h))

-- The namespace after a write to slot `i`, which held `e`: of a key that is there, of a new one,
-- and of a removal.
abbrev pub with_value : Ns → Bytes → ℕ → Entry → Ns
with_value n value i e = record n { entries = set n.entries i (write_value value e) }

abbrev pub with_entry : Ns → Bytes → Bytes → ℕ → Entry → Ns
with_entry n key value i e = record n {
  entries = set n.entries i (write_value value (write_key key e));
  count = n.count + 1;
}

abbrev pub without : Ns → ℕ → Entry → Ns
without n i e = record n {
  entries = set n.entries i (clear_entry e);
  count = if ltb 0 n.count then n.count - 1 else n.count;
}

-- Which slot `store` writes, and what was there.
pub data Stored (n : Ns) (key value : Bytes) : Type 0 where
  kept :
      (i : ℕ) (e : Entry)
      → get_elem? n.entries i ≡ some e
      → has_key key e ≡ true
      → store n key value ≡ some (with_value n value i e)
      → Stored n key value
  added :
      (i : ℕ) (e : Entry)
      → get_elem? n.entries i ≡ some e
      → e.used ≡ false
      → count_if (has_key key) n.entries ≡ 0
      → store n key value ≡ some (with_entry n key value i e)
      → Stored n key value
  is_full :
      count_if (has_key key) n.entries ≡ 0
      → count_if is_free n.entries ≡ 0
      → store n key value ≡ none
      → Stored n key value

store_kept :
    (n : Ns) (key value : Bytes) (i : ℕ) {e : Entry}
    → find_entry n key ≡ some i
    → get_elem? n.entries i ≡ some e
    → store n key value ≡ some (with_value n value i e)
unfolding store update_entry
store_kept n key value i h at = ground arith

store_added :
    (n : Ns) (key value : Bytes) (i : ℕ) {e : Entry}
    → find_entry n key ≡ none
    → find_free n ≡ some i
    → get_elem? n.entries i ≡ some e
    → store n key value ≡ some (with_entry n key value i e)
unfolding store update_entry
store_added n key value i h f at = ground arith

store_full :
    (n : Ns) (key value : Bytes)
    → find_entry n key ≡ none
    → find_free n ≡ none
    → store n key value ≡ none
unfolding store
store_full n key value h f = ground arith

pub store-Stored : (n : Ns) (key value : Bytes) → Stored n key value
unfolding find_entry find_free
store-Stored n key value = elim (Option-cases (find_entry n key)) [
  | inr (i, h) ↦
      let (e, at, hit) = find_index-some (has_key key) n.entries i h in
      kept i e at hit (store_kept n key value i h at)
  | inl h ↦ elim (Option-cases (find_free n)) [
    | inl f ↦
        is_full (find_index-none _ n.entries h) (find_index-none _ n.entries f)
          (store_full n key value h f)
    | inr (i, f) ↦
        let (e, at, free) = find_index-some is_free n.entries i f in
        added i e at (ground arith) (find_index-none _ n.entries h)
          (store_added n key value i h f at)
  ]
]

pub data Removed (n : Ns) (key : Bytes) : Type 0 where
  missing : count_if (has_key key) n.entries ≡ 0 → remove n key ≡ none → Removed n key
  gone :
      (i : ℕ) (e : Entry)
      → get_elem? n.entries i ≡ some e
      → has_key key e ≡ true
      → remove n key ≡ some (without n i e)
      → Removed n key

remove_missing : (n : Ns) (key : Bytes) → find_entry n key ≡ none → remove n key ≡ none
unfolding remove
remove_missing n key h = ground arith

remove_gone :
    (n : Ns) (key : Bytes) (i : ℕ) {e : Entry}
    → find_entry n key ≡ some i
    → get_elem? n.entries i ≡ some e
    → remove n key ≡ some (without n i e)
unfolding remove update_entry
remove_gone n key i h at = ground arith

pub remove-Removed : (n : Ns) (key : Bytes) → Removed n key
unfolding find_entry
remove-Removed n key = elim (Option-cases (find_entry n key)) [
  | inl h ↦ missing (find_index-none _ n.entries h) (remove_missing n key h)
  | inr (i, h) ↦
      let (e, at, hit) = find_index-some (has_key key) n.entries i h in
      gone i e at hit (remove_gone n key i h at)
]

-- The buffer keeps its size when a value that fits is copied into it.
length-write_value :
    (max : ℕ) (value : Bytes) (e : Entry)
    → length value ≤ max
    → length e.value ≡ max + 1
    → length (write_value value e).value ≡ max + 1
length-write_value max value e h k = omega (
  arith,
  length-append value (0 ∷ drop (length value + 1) e.value),
  length-drop (length value + 1) e.value,
)

-- A new key's entry is the only one of that key.
one_new :
    (es : List Entry) (i : ℕ) (key k : Bytes) {e : Entry} (w : Entry)
    → get_elem? es i ≡ some e
    → e.used ≡ false
    → w.key ≡ key
    → count_if (has_key key) es ≡ 0
    → count_if (has_key k) es ≤ 1
    → count_if (has_key k) (set es i w) ≤ 1
one_new es i key k w at free e new one = elim (Bool-cases (has_key k w)) [
  | inl hit ↦
      let same : key ≡ k = sym e ∙ eq_of_str_eq w.key k (ground arith) in
      ground (
        arith,
        count_if-set (has_key k) es i w at,
        subst (λ j. count_if (has_key j) es ≡ 0) same new,
      )
  | inr miss ↦ ground (arith, count_if-set (has_key k) es i w at)
]

module _ {max : ℕ} {n : Ns} (v : IsValid max n) (i : ℕ) {e : Entry}
    (at : get_elem? n.entries i ≡ some e) where
  buffer_size : length e.value ≡ max + 1
  buffer_size = elim (Bool-cases (is_missized max e)) [
    | inl bad ↦
        absurd (omega (arith, v.buffered, count_if_pos (is_missized max) n.entries i at bad))
    | inr fine ↦ ground arith
  ]

  pub with_value-IsValid :
      (key value : Bytes)
      → has_key key e ≡ true
      → length value ≤ max
      → IsValid max (with_value n value i e)
  with_value-IsValid key value hit fits = record {
    sized = omega (arith, v.sized, length-set n.entries i (write_value value e));
    counted = ground (arith, v.counted, count_if-set in_use n.entries i (write_value value e) at);
    unique = λ k.
        ground (arith, v.unique k, count_if-set (has_key k) n.entries i (write_value value e) at);
    formed = ground (
      arith,
      v.formed,
      fits,
      count_if_bound (is_malformed max) n.entries i at,
      count_if-set (is_malformed max) n.entries i (write_value value e) at,
    );
    buffered = ground (
      arith,
      v.buffered,
      count_if-set (is_missized max) n.entries i (write_value value e) at,
      length-write_value max value e fits buffer_size,
    );
  }

  pub with_entry-IsValid :
      (key value : Bytes)
      → e.used ≡ false
      → count_if (has_key key) n.entries ≡ 0
      → key_valid key ≡ true
      → length value ≤ max
      → IsValid max (with_entry n key value i e)
  with_entry-IsValid key value free new ok fits =
      let w = write_value value (write_key key e) in
      record {
        sized = omega (arith, v.sized, length-set n.entries i w);
        counted = ground (arith, v.counted, free, count_if-set in_use n.entries i w at);
        unique = λ k. one_new n.entries i key k w at free (bounded_key key ok) new (v.unique k);
        formed = ground (
          arith,
          v.formed,
          free,
          fits,
          bounded_key key ok,
          ok,
          count_if-set (is_malformed max) n.entries i w at,
        );
        buffered = ground (
          arith,
          v.buffered,
          count_if-set (is_missized max) n.entries i w at,
          length-write_value max value e fits buffer_size,
        );
      }

  without-IsValid : (key : Bytes) → has_key key e ≡ true → IsValid max (without n i e)
  without-IsValid key hit = record {
    sized = omega (arith, v.sized, length-set n.entries i (clear_entry e));
    counted = ground (arith, v.counted, count_if-set in_use n.entries i (clear_entry e) at);
    unique =
        λ k. ground (arith, v.unique k, count_if-set (has_key k) n.entries i (clear_entry e) at);
    formed =
        ground (arith, v.formed, count_if-set (is_malformed max) n.entries i (clear_entry e) at);
    buffered = ground (
      arith,
      v.buffered,
      count_if-set (is_missized max) n.entries i (clear_entry e) at,
      buffer_size,
    );
  }

-- Storing a checked key and value keeps the invariant.
pub store-IsValid :
    {max : ℕ} (n : Ns) (key value : Bytes) {m : Ns}
    → IsValid max n
    → key_valid key ≡ true
    → length value ≤ max
    → store n key value ≡ some m
    → IsValid max m
store-IsValid {max} n key value v ok fits h = elim (store-Stored n key value) [
  | kept i e at hit r ↦
      subst (IsValid max) (some_inj (sym r ∙ h)) (with_value-IsValid v i at key value hit fits)
  | added i e at free new r ↦
      subst (IsValid max) (some_inj (sym r ∙ h))
        (with_entry-IsValid v i at key value free new ok fits)
  | is_full _ _ r ↦ cc
]

pub remove-IsValid :
    {max : ℕ} (n : Ns) (key : Bytes) {m : Ns}
    → IsValid max n
    → remove n key ≡ some m
    → IsValid max m
remove-IsValid {max} n key v h = elim (remove-Removed n key) [
  | missing _ r ↦ cc
  | gone i e at hit r ↦ subst (IsValid max) (some_inj (sym r ∙ h)) (without-IsValid v i at key hit)
]
