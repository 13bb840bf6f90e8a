-- ===== src/State/Invariant.antt =====
-- The invariant of the store, and how a write through a namespace pointer and a registration act on
-- it and on the namespaces that are found by name.
use edgehost.Prelude.{
  ℕ, ◌≤◌, ◌≡◌, true, false, inl, inr, some, arith, Bool-cases, Option-cases, if◌then◌else◌, length,
  get_elem?, set, length-set, subst, sym, ◌∙◌, get_elem?-set_self, get_elem?-lt, All, All-set,
  All-get,
}
use edgehost.Prelude.Table.{
  count_if, count_if-set, find_index-some, deref-find_index, first, first-set_other,
  first_of_unique,
}
use edgehost.Prelude.Text.{Bytes, str_eq, eq_of_str_eq}
use edgehost.State.Namespace.{Ns}
use edgehost.State.Namespace.Invariant.{in_use, is_malformed, is_missized}
use edgehost.State.Namespace.Invariant
use edgehost.State.{Store, ns_max, is_named, find_ns, ns_at, write_ns}

pub record IsValid (st : Store) : Type 0 where
  pub fits : length st.ns ≤ ns_max
  pub unique : (name : Bytes) → count_if (is_named name) st.ns ≤ 1
  pub each : All (Invariant.IsValid st.max_value) st.ns

pub ns_at-first : (st : Store) (name : Bytes) → ns_at st name ≡ first (is_named name) st.ns
unfolding find_ns
ns_at-first st name = deref-find_index (is_named name) st.ns

-- Where a namespace that is found stands.
pub record At (st : Store) (name : Bytes) (i : ℕ) (n : Ns) : Type 0 where
  pub found : find_ns st name ≡ some i
  pub at_slot : get_elem? st.ns i ≡ some n
  pub named : is_named name n ≡ true

pub ns_at-At :
    (st : Store) (name : Bytes) {n : Ns} → ns_at st name ≡ some n → (i : ℕ) × At st name i n
unfolding find_ns
ns_at-At st name {n} h = elim (Option-cases (find_ns st name)) [
  | inl e ↦ absurd (ground arith)
  | inr (i, e) ↦
      let (m, at, ok) = find_index-some (is_named name) st.ns i e in
      (i, record { found = e; at_slot = ground arith; named = ground arith })
]

pub ns_at-IsValid :
    {st : Store} (name : Bytes) {n : Ns}
    → IsValid st
    → ns_at st name ≡ some n
    → Invariant.IsValid st.max_value n
ns_at-IsValid {st} name {n} v h =
    let (i, a) = ns_at-At st name h in
    All-get (Invariant.IsValid st.max_value) st.ns i v.each a.at_slot

-- What a write through the pointer of `find_ns` may not change.
pub record Same (n m : Ns) : Type 0 where
  pub name : m.name ≡ n.name
  pub registered : m.registered ≡ n.registered

pub write_ns_lem :
    (st : Store) (name : Bytes) (m : Ns) (i : ℕ)
    → find_ns st name ≡ some i
    → write_ns st name m ≡ record st { ns = set st.ns i m }
write_ns_lem st name m i h = rw (h, write_ns)

module _ {st : Store} (v : IsValid st) (name : Bytes) {n m : Ns} (h : ns_at st name ≡ some n)
    (s : Same n m) where
  -- Writing a valid namespace of the same name keeps the invariant.
  pub write_ns-IsValid : Invariant.IsValid st.max_value m → IsValid (write_ns st name m)
  write_ns-IsValid w =
      let (i, a) = ns_at-At st name h in
      subst IsValid (sym (write_ns_lem st name m i a.found)) (record {
        fits = omega (arith, v.fits, length-set st.ns i m);
        unique = λ k. ground (
          arith,
          v.unique k,
          s.name,
          s.registered,
          count_if-set (is_named k) st.ns i m a.at_slot,
        );
        each = All-set (Invariant.IsValid st.max_value) st.ns i m v.each w;
      })

  -- It is then found under its name, and every other name finds what it found.
  pub ns_at-write_ns :
      (k : Bytes) → ns_at (write_ns st name m) k ≡ (if str_eq name k then some m else ns_at st k)
  ns_at-write_ns k =
      let (i, a) = ns_at-At st name h in
      let own : n.name ≡ name = eq_of_str_eq n.name name (ground (arith, a.named)) in
      subst (λ (w : Store). ns_at w k ≡ (if str_eq name k then some m else ns_at st k))
        (sym (write_ns_lem st name m i a.found))
        (ns_at-first (record st { ns = set st.ns i m }) k ∙ elim (Bool-cases (str_eq name k)) [
          | inl same ↦ rw same (
              first_of_unique (is_named k) (set st.ns i m) i
                (ground (
                  arith,
                  v.unique k,
                  s.name,
                  s.registered,
                  count_if-set (is_named k) st.ns i m a.at_slot,
                ))
                (get_elem?-set_self st.ns i m (get_elem?-lt st.ns i a.at_slot))
                (now k own same a.named))
          | inr other ↦ rw other (
              first-set_other (is_named k) st.ns i m a.at_slot (not_now k own other)
                (not_then k own other)
              ∙ sym (ns_at-first st k))
        ])
    where
      now :
          (j : Bytes)
          → n.name ≡ name
          → str_eq name j ≡ true
          → is_named name n ≡ true
          → is_named j m ≡ true
      now j own same ok =
          ground (arith, s.name, s.registered, subst (λ x. str_eq x j ≡ true) (sym own) same)

      not_now : (j : Bytes) → n.name ≡ name → str_eq name j ≡ false → is_named j n ≡ false
      not_now j own other = ground (arith, subst (λ x. str_eq x j ≡ false) (sym own) other)

      not_then : (j : Bytes) → n.name ≡ name → str_eq name j ≡ false → is_named j m ≡ false
      not_then j own other = ground (arith, s.name, not_now j own other)
