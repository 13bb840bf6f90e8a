-- ===== src/Prelude/Table.antt =====
-- A table of a fixed number of slots that is scanned from slot 0: what the state store, the
-- pending table and the buffer table share. A pointer into the table is a slot's index.
use Prim.Native.Nat.{ℕ, zero, suc, ◌+◌, ◌≤◌, ◌<◌}
use mathlib.Core.Path.{◌≡◌, refl}
use mathlib.Core.Logic.{inl, inr}
use mathlib.Core.Bool.{Bool, true, false, ◌&&◌}
use mathlib.Core.List.{List, [], ◌∷◌, ◌++◌}
use mathlib.Core.Option.{Option, none, some}
use native.Mathlib.Omega.{arith}
use edgehost.Prelude.Tests.{if◌then◌else◌, to_int, Bool-cases, Option-cases}
use edgehost.Prelude.Lists.{length, get_elem?, set, replicate}

abbrev pub next_index : Option ℕ → Option ℕ
next_index none = none
next_index (some i) = some (suc i)

next_index-ne-zero : (o : Option ℕ) → next_index o ≡ some 0 → ⊥
next_index-ne-zero none h = cc
next_index-ne-zero (some i) h = ground arith

next_index-suc : (o : Option ℕ) (i : ℕ) → next_index o ≡ some (suc i) → o ≡ some i
next_index-suc none i h = cc
next_index-suc (some j) i h = ground arith

module _ {ℓ} {A : Type ℓ} where
  -- `for (i = 0; i < n; i++) if (p(slot[i])) return &slot[i]; return NULL;`
  unfoldable pub find_index : (A → Bool) → List A → Option ℕ
  find_index p [] = none
  find_index p (x ∷ xs) = if p x then some 0 else next_index (find_index p xs)

  -- The number of slots that pass the test.
  abbrev pub count_if : (A → Bool) → List A → ℕ
  count_if p [] = 0
  count_if p (x ∷ xs) = to_int (p x) + count_if p xs

module _ {ℓ} {A : Type ℓ} (p : A → Bool) where
  pub count_if-le : (xs : List A) → count_if p xs ≤ length xs
  count_if-le [] = omega arith
  count_if-le (x ∷ xs) = ground (arith, count_if-le xs)

  -- What a write does to the count.
  pub count_if-set :
      (xs : List A) (i : ℕ) (v : A) {x : A}
      → get_elem? xs i ≡ some x
      → count_if p (set xs i v) + to_int (p x) ≡ count_if p xs + to_int (p v)
  count_if-set [] i v h = cc
  count_if-set (y ∷ xs) zero v h = ground arith
  count_if-set (y ∷ xs) (suc i) v h = omega (arith, count_if-set xs i v h)

  -- A scan that finds nothing has passed only slots that fail the test.
  pub find_index-none : (xs : List A) → find_index p xs ≡ none → count_if p xs ≡ 0
  unfolding find_index
  find_index-none [] h = refl
  find_index-none (x ∷ xs) h = ground (arith, find_index-none xs)

  pub find_index_of_count : (xs : List A) → count_if p xs ≡ 0 → find_index p xs ≡ none
  unfolding find_index
  find_index_of_count [] h = refl
  find_index_of_count (x ∷ xs) h = ground (arith, find_index_of_count xs)

  -- A scan that stops does so at a slot that passes.
  pub find_index-some :
      (xs : List A) (i : ℕ)
      → find_index p xs ≡ some i
      → (x : A) × (get_elem? xs i ≡ some x) × (p x ≡ true)
  unfolding find_index
  find_index-some [] i h = cc
  find_index-some (x ∷ xs) zero h = elim (Bool-cases (p x)) [
    | inl t ↦ (x, refl, t)
    | inr f ↦ absurd (next_index-ne-zero (find_index p xs) (rw f at h))
  ]
  find_index-some (x ∷ xs) (suc i) h =
      ground (arith, next_index-suc (find_index p xs) i, find_index-some xs i)

  -- A write that leaves the test's answer in every slot leaves the scan's result.
  pub find_index-set_same :
      (xs : List A) (i : ℕ) (v : A) {x : A}
      → get_elem? xs i ≡ some x
      → p x ≡ p v
      → find_index p (set xs i v) ≡ find_index p xs
  unfolding find_index
  find_index-set_same [] i v h e = cc
  find_index-set_same (y ∷ xs) zero v h e = ground arith
  find_index-set_same (y ∷ xs) (suc i) v h e = rw (find_index-set_same xs i v h e)

  -- A slot that passes is found, if it is the only one.
  pub find_index-set_first :
      (xs : List A) (i : ℕ) (v : A) {x : A}
      → get_elem? xs i ≡ some x
      → find_index p xs ≡ none
      → p v ≡ true
      → find_index p (set xs i v) ≡ some i
  unfolding find_index
  find_index-set_first [] i v h e t = cc
  find_index-set_first (y ∷ xs) zero v h e t = rw t
  find_index-set_first (y ∷ xs) (suc i) v h e t = ground (arith, find_index-set_first xs i v h)

  -- Where only one slot passes, a write that makes it fail leaves none.
  pub find_index-set_gone :
      (xs : List A) (i : ℕ) (v : A) {x : A}
      → count_if p xs ≤ 1
      → get_elem? xs i ≡ some x
      → p x ≡ true
      → p v ≡ false
      → find_index p (set xs i v) ≡ none
  find_index-set_gone xs i v c h t f =
      find_index_of_count (set xs i v) (ground (arith, count_if-set xs i v h))

  pub count_if_pos :
      (xs : List A) (i : ℕ) {x : A} → get_elem? xs i ≡ some x → p x ≡ true → 1 ≤ count_if p xs
  count_if_pos [] i h t = cc
  count_if_pos (y ∷ xs) zero h t = ground arith
  count_if_pos (y ∷ xs) (suc i) h t = omega (arith, count_if_pos xs i h t)

  -- Where only one slot passes, the scan finds it.
  pub find_index_of_unique :
      (xs : List A) (i : ℕ) {x : A}
      → count_if p xs ≤ 1
      → get_elem? xs i ≡ some x
      → p x ≡ true
      → find_index p xs ≡ some i
  unfolding find_index
  find_index_of_unique [] i c h t = cc
  find_index_of_unique (y ∷ xs) zero c h t = ground arith
  find_index_of_unique (y ∷ xs) (suc i) {x = x} c h t =
      ground (arith, count_if_pos xs i h t, find_index_of_unique xs i {x = x})

  pub count_if-replicate : (n : ℕ) (v : A) → p v ≡ false → count_if p (replicate n v) ≡ 0
  count_if-replicate zero v h = refl
  count_if-replicate (suc n) v h = ground (arith, count_if-replicate n v h)

-- Two tests that exclude one another share the slots.
pub count_if_disjoint {ℓ} :
    {A : Type ℓ} (p q : A → Bool)
    → ((a : A) → p a ≡ true → q a ≡ false)
    → (xs : List A) → count_if p xs + count_if q xs ≤ length xs
count_if_disjoint p q d [] = omega arith
count_if_disjoint p q d (x ∷ xs) = ground (arith, d x, count_if_disjoint p q d xs)

-- Where one test implies another, it passes no more often.
pub count_if_mono {ℓ} :
    {A : Type ℓ} (p q : A → Bool)
    → ((a : A) → p a ≡ true → q a ≡ true)
    → (xs : List A) → count_if p xs ≤ count_if q xs
count_if_mono p q d [] = omega arith
count_if_mono p q d (x ∷ xs) = ground (arith, d x, count_if_mono p q d xs)

-- A slot passes the one test or the other.
pub count_if_split {ℓ} :
    {A : Type ℓ} (p q : A → Bool)
    → ((a : A) → to_int (p a) + to_int (q a) ≡ 1)
    → (xs : List A) → count_if p xs + count_if q xs ≡ length xs
count_if_split p q d [] = omega arith
count_if_split p q d (x ∷ xs) = omega (arith, d x, count_if_split p q d xs)

-- A scan ends at some slot, if one passes.
pub find_index_of_pos {ℓ} :
    {A : Type ℓ} (p : A → Bool) (xs : List A)
    → 0 < count_if p xs
    → (i : ℕ) × (find_index p xs ≡ some i)
find_index_of_pos p xs h = elim (Option-cases (find_index p xs)) [
  | inl e ↦ absurd (omega (arith, find_index-none p xs e))
  | inr (i, e) ↦ (i, e)
]

-- The contents of the slot that a scan found.
abbrev pub deref {ℓ} : {A : Type ℓ} → List A → Option ℕ → Option A
deref xs none = none
deref xs (some i) = get_elem? xs i

-- The first slot that passes, by contents.
pub first {ℓ} : {A : Type ℓ} → (A → Bool) → List A → Option A
first p [] = none
first p (x ∷ xs) = if p x then some x else first p xs

deref-next_index {ℓ} :
    {A : Type ℓ} (x : A) (xs : List A) (o : Option ℕ) → deref (x ∷ xs) (next_index o) ≡ deref xs o
deref-next_index x xs none = refl
deref-next_index x xs (some i) = refl

module _ {ℓ} {A : Type ℓ} (p : A → Bool) where
  pub deref-find_index : (xs : List A) → deref xs (find_index p xs) ≡ first p xs
  unfolding find_index first
  deref-find_index [] = refl
  deref-find_index (x ∷ xs) = elim (Bool-cases (p x)) [
    | inl t ↦ rw t
    | inr f ↦ rw (f, deref-next_index x xs (find_index p xs)) (deref-find_index xs)
  ]

  pub first-set_other :
      (xs : List A) (i : ℕ) (v : A) {x : A}
      → get_elem? xs i ≡ some x
      → p x ≡ false
      → p v ≡ false
      → first p (set xs i v) ≡ first p xs
  unfolding first
  first-set_other [] i v h f g = refl
  first-set_other (y ∷ xs) zero v h f g = ground arith
  first-set_other (y ∷ xs) (suc i) v h f g = rw (first-set_other xs i v h f g)

  pub first_of_none : (xs : List A) → count_if p xs ≡ 0 → first p xs ≡ none
  unfolding first
  first_of_none [] h = refl
  first_of_none (x ∷ xs) h = ground (arith, first_of_none xs)

  pub first-none : (xs : List A) → first p xs ≡ none → count_if p xs ≡ 0
  unfolding first
  first-none [] h = refl
  first-none (x ∷ xs) h = ground (arith, first-none xs)

  pub first-some : (xs : List A) {x : A} → first p xs ≡ some x → 0 < count_if p xs
  unfolding first
  first-some [] h = cc
  first-some (y ∷ xs) {x = x} h = ground (arith, first-some xs {x = x})

  pub first_of_unique :
      (xs : List A) (i : ℕ) {x : A}
      → count_if p xs ≤ 1
      → get_elem? xs i ≡ some x
      → p x ≡ true
      → first p xs ≡ some x
  unfolding first
  first_of_unique [] i c h t = cc
  first_of_unique (y ∷ xs) zero c h t = ground arith
  first_of_unique (y ∷ xs) (suc i) {x = x} c h t =
      ground (arith, count_if_pos p xs i h t, first_of_unique xs i {x = x})

-- One slot counts for no more than all.
pub count_if_bound {ℓ} :
    {A : Type ℓ} (p : A → Bool) (xs : List A) (i : ℕ) {x : A}
    → get_elem? xs i ≡ some x
    → to_int (p x) ≤ count_if p xs
count_if_bound p [] i h = cc
count_if_bound p (y ∷ xs) zero h = ground arith
count_if_bound p (y ∷ xs) (suc i) h = omega (arith, count_if_bound p xs i h)

module _ {ℓ} {A : Type ℓ} (p : A → Bool) where
  pub count_if-append : (xs ys : List A) → count_if p (xs ++ ys) ≡ count_if p xs + count_if p ys
  count_if-append [] ys = omega arith
  count_if-append (x ∷ xs) ys = omega (arith, count_if-append xs ys)

  -- What a scan finds behind a new last slot.
  pub first-append_last :
      (xs : List A) (v : A)
      → first p xs ≡ none
      → first p (xs ++ (v ∷ [])) ≡ (if p v then some v else none)
  unfolding first
  first-append_last [] v h = ground arith
  first-append_last (x ∷ xs) v h = ground (arith, first-append_last xs v)

  pub first-append_some :
      (xs ys : List A) {a : A} → first p xs ≡ some a → first p (xs ++ ys) ≡ some a
  unfolding first
  first-append_some [] ys h = cc
  first-append_some (x ∷ xs) ys {a = a} h = ground (arith, first-append_some xs ys {a = a})

abbrev pub keep_if {ℓ} : {A : Type ℓ} → (A → Bool) → Option A → Option A
keep_if r none = none
keep_if r (some a) = if r a then some a else none

-- Where at most one slot passes the test `p`, the scan for `p` and `r` finds it or nothing.
pub first_both {ℓ} :
    {A : Type ℓ} (p q r : A → Bool)
    → ((a : A) → q a ≡ (p a && r a))
    → (xs : List A) → count_if p xs ≤ 1
    → first q xs ≡ keep_if r (first p xs)
unfolding first
first_both p q r d [] h = refl
first_both p q r d (x ∷ xs) h = elim (Bool-cases (p x)) [
  | inr f ↦ rw (f, d x, f) (first_both p q r d xs (omega arith))
  | inl t ↦ elim (Bool-cases (r x)) [
    | inl k ↦ rw (d x, t, k)
    | inr k ↦
        rw (d x, t, k)
          (first_of_none q xs (ground (arith, count_if_mono q p (λ a e. ground (arith, d a)) xs)))
  ]
]
