-- ===== src/State/View.antt =====
-- The store as a partial function from a namespace's name and a key to a value.
use edgehost.Prelude.{
  ◌≡◌, Bool, true, ◌&&◌, inl, inr, Option, none, some, some_inj, arith, Bool-cases, if◌then◌else◌,
  ap, sym, ◌∙◌,
}
use edgehost.Prelude.Text.{Bytes, str_eq, eq_of_str_eq}
use edgehost.State.Namespace.{Ns, store, remove}
use edgehost.State.Namespace.Invariant.{
  kept, added, is_full, store-Stored, missing, gone, remove-Removed,
}
use edgehost.State.Namespace.Lookup.{lookup}
use edgehost.State.{Store, ns_at, write_ns}
use edgehost.State.Invariant.{IsValid, Same, ns_at-write_ns}

abbrev pub lookup_in : Option Ns → Bytes → Option Bytes
lookup_in none key = none
lookup_in (some n) key = lookup n key

-- The value of a key in a namespace, enabled or not.
abbrev pub read : Store → Bytes → Bytes → Option Bytes
read st name key = lookup_in (ns_at st name) key

-- Neither storing nor removing touches the name or the flags of a namespace.
pub store-Same :
    (n m : Ns) (key value : Bytes)
    → store n key value ≡ some m
    → Same n m × (m.enabled ≡ n.enabled) × (m.capacity ≡ n.capacity)
store-Same n m key value h = elim (store-Stored n key value) [
  | kept i e at hit r ↦ ground (arith, some_inj (sym r ∙ h))
  | added i e at free new r ↦ ground (arith, some_inj (sym r ∙ h))
  | is_full _ _ r ↦ cc
]

pub remove-Same :
    (n m : Ns) (key : Bytes)
    → remove n key ≡ some m
    → Same n m × (m.enabled ≡ n.enabled) × (m.capacity ≡ n.capacity)
remove-Same n m key h = elim (remove-Removed n key) [
  | missing _ r ↦ cc
  | gone i e at hit r ↦ ground (arith, some_inj (sym r ∙ h))
]

-- What a write through the pointer of `find_ns` does to the view.
module _ {st : Store} (v : IsValid st) (name : Bytes) {n m : Ns} (h : ns_at st name ≡ some n)
    (s : Same n m) where
  pub read-write_ns :
      (key : Bytes) (new : Option Bytes)
      → ((k : Bytes) → lookup m k ≡ (if str_eq key k then new else lookup n k))
      → (j k : Bytes)
      → read (write_ns st name m) j k ≡ (if str_eq name j && str_eq key k then new else read st j k)
  read-write_ns key new f j k =
      ap (λ o. lookup_in o k) (ns_at-write_ns v name h s j) ∙ elim (Bool-cases (str_eq name j)) [
        | inl same ↦ rw same (f k ∙ ap (λ x. if str_eq key k then new else x) (there j same))
        | inr other ↦ rw other
      ]
    where
      there : (i : Bytes) → str_eq name i ≡ true → lookup n k ≡ read st i k
      there i same =
          ap (λ o. lookup_in o k) (sym h) ∙ ap (λ x. read st x k) (eq_of_str_eq name i same)

-- Whether the namespace that a name finds is enabled.
abbrev pub flag : Option Ns → Option Bool
flag none = none
flag (some n) = some n.enabled

module _ {st : Store} (v : IsValid st) (name : Bytes) {n m : Ns} (h : ns_at st name ≡ some n)
    (s : Same n m) where
  pub flag-write_ns :
      m.enabled ≡ n.enabled → (j : Bytes) → flag (ns_at (write_ns st name m) j) ≡ flag (ns_at st j)
  flag-write_ns e j = ap flag (ns_at-write_ns v name h s j) ∙ elim (Bool-cases (str_eq name j)) [
    | inl same ↦
        rw same
          (ap some e ∙ ap flag (sym h) ∙ ap (λ x. flag (ns_at st x)) (eq_of_str_eq name j same))
    | inr other ↦ rw other
  ]
