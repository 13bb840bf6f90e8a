-- ===== src/State/Namespace/Listing.antt =====
-- What `edge_state_list` writes: which keys, how often, how many.
use edgehost.Prelude.{
  ℕ, ◌-◌, ◌≤◌, ◌<◌, ◌≡◌, refl, Bool, true, false, ◌&&◌, inl, inr, List, [], ◌∷◌, Option, none, some,
  arith, Bool-cases, Option-cases, if◌then◌else◌, length, ap, min, to_int,
}
use edgehost.Prelude.Table.{count_if, count_if_mono, first, first-none, first-some}
use edgehost.Prelude.Text.{Bytes, bounded, str_eq, eq_of_str_eq}
use edgehost.State.Check.{key_max}
use edgehost.State.Namespace.{Entry, Ns, has_key, passes_prefix, is_listed, list_from}
use edgehost.State.Namespace.Invariant.{IsValid, is_malformed, bounded_key}
use edgehost.State.Namespace.Lookup.{lookup}

-- How often a key is in a list of keys.
abbrev pub occurs : Bytes → List Bytes → ℕ
occurs k = count_if (λ j. str_eq j k)

-- A listed entry of that key.
abbrev is_listed_as : Option Bytes → Bytes → Entry → Bool
is_listed_as p k e = is_listed p e && str_eq e.key k

-- The key that is copied out of a well-formed entry is the entry's.
listed_key :
    (max : ℕ) (p : Option Bytes) (e : Entry)
    → is_malformed max e ≡ false
    → is_listed p e ≡ true
    → bounded key_max e.key ≡ e.key
listed_key max p e h l = bounded_key e.key (ground arith)

-- The number of keys written.
pub length-list_from :
    (p : Option Bytes) (es : List Entry) (room : ℕ)
    → length (list_from p es room) ≡ min room (count_if (is_listed p) es)
unfolding list_from
length-list_from p [] room = omega arith
length-list_from p (e ∷ es) room =
    ground (arith, length-list_from p es (if is_listed p e then room - 1 else room))

occurs-list_from-le :
    (max : ℕ) (p : Option Bytes) (k : Bytes) (es : List Entry) (room : ℕ)
    → count_if (is_malformed max) es ≡ 0
    → occurs k (list_from p es room) ≤ count_if (is_listed_as p k) es
unfolding list_from
occurs-list_from-le max p k [] room h = omega arith
occurs-list_from-le max p k (e ∷ es) room h = ground (
  arith,
  occurs-list_from-le max p k es (if is_listed p e then room - 1 else room),
  listed_key max p e,
)

occurs-list_from_all :
    (max : ℕ) (p : Option Bytes) (k : Bytes) (es : List Entry) (room : ℕ)
    → count_if (is_malformed max) es ≡ 0
    → count_if (is_listed p) es ≤ room
    → occurs k (list_from p es room) ≡ count_if (is_listed_as p k) es
unfolding list_from
occurs-list_from_all max p k [] room h fits = refl
occurs-list_from_all max p k (e ∷ es) room h fits = ground (
  arith,
  occurs-list_from_all max p k es (if is_listed p e then room - 1 else room),
  listed_key max p e,
  count_if_mono (is_listed_as p k) (is_listed p) (λ x t. ground arith) es,
)

listed_as_key :
    (p : Option Bytes) (k : Bytes) (es : List Entry)
    → count_if (is_listed_as p k) es ≡ (if passes_prefix p k then count_if (has_key k) es else 0)
listed_as_key p k [] = ground arith
listed_as_key p k (e ∷ es) = elim (Bool-cases (str_eq e.key k)) [
  | inl same ↦
      let to_k : passes_prefix p e.key ≡ passes_prefix p k =
        ap (passes_prefix p) (eq_of_str_eq e.key k same) in
      ground (arith, listed_as_key p k es, same, to_k)
  | inr other ↦ ground (arith, listed_as_key p k es, other)
]

abbrev pub is_present : Option Bytes → Bool
is_present none = false
is_present (some v) = true

-- A key that has a value and that the prefix passes.
abbrev pub is_match : Ns → Option Bytes → Bytes → Bool
is_match n p k = passes_prefix p k && is_present (lookup n k)

has_key-lookup :
    {max : ℕ} {n : Ns} (k : Bytes)
    → IsValid max n
    → count_if (has_key k) n.entries ≡ to_int (is_present (lookup n k))
has_key-lookup {n = n} k v = elim (Option-cases (first (has_key k) n.entries)) [
  | inl e ↦ rw e (first-none (has_key k) n.entries e)
  | inr (x, e) ↦ rw e (omega (arith, v.unique k, first-some (has_key k) n.entries e))
]

-- What a listing with room for `room` keys says of a valid namespace.
pub record Listing (n : Ns) (p : Option Bytes) (room : ℕ) (ks : List Bytes) : Type 0 where
  pub number : length ks ≡ min room (count_if (is_listed p) n.entries)
  pub sound : (k : Bytes) → occurs k ks ≤ to_int (is_match n p k)
  pub complete : length ks < room → (k : Bytes) → occurs k ks ≡ to_int (is_match n p k)

pub list_from-Listing :
    {max : ℕ} {n : Ns} (p : Option Bytes) (room : ℕ)
    → IsValid max n
    → Listing n p room (list_from p n.entries room)
list_from-Listing {max} {n} p room v = record {
  number = length-list_from p n.entries room;
  sound = λ k. ground (
    arith,
    occurs-list_from-le max p k n.entries room v.formed,
    listed_as_key p k n.entries,
    has_key-lookup k v,
  );
  complete = λ short k. ground (
    arith,
    occurs-list_from_all max p k n.entries room v.formed
        (omega (arith, length-list_from p n.entries room)),
    listed_as_key p k n.entries,
    has_key-lookup k v,
  );
}
