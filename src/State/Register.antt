-- ===== src/State/Register.antt =====
-- `register_ns` and `edge_state_ns_set_enabled`: what they do to the store.
use edgehost.Prelude.{
  ℕ, ◌+◌, ◌≤◌, ◌<◌, ◌≡◌, refl, Bool, true, false, not, ◌||◌, ◌⊎◌, inl, inr, [], ◌∷◌, ◌++◌, Option,
  none, some, arith, Bool-cases, Option-cases, leb, if◌then◌else◌, length, length-append,
  length-replicate, take_of_le, ap, subst, sym, ◌∙◌, All-append,
}
use edgehost.Prelude.Table.{
  count_if, count_if-replicate, first, first-none, count_if-append, first-append_last,
  first-append_some,
}
use edgehost.Prelude.Text.{Bytes, bounded, str_eq, is_empty, eq_of_str_eq}
use edgehost.State.Namespace.{Ns, has_key}
use edgehost.State.Namespace.Invariant.{in_use, is_malformed, is_missized}
use edgehost.State.Namespace.Invariant
use edgehost.State.{Store, ns_max, is_named, ns_at, write_ns, empty_entry, new_ns, register}
use edgehost.State.Invariant.{
  IsValid, ns_at-first, ns_at-IsValid, Same, write_ns-IsValid, ns_at-write_ns,
}
use edgehost.State.{set_enabled}

-- A namespace as it is registered is valid and empty.
new_ns-IsValid :
    (st : Store) (name : Bytes) (on : Bool) → Invariant.IsValid st.max_value (new_ns st name on)
new_ns-IsValid st name on =
    let e = empty_entry st.max_value in
    record {
      sized = length-replicate st.max_keys e;
      counted = sym (count_if-replicate in_use st.max_keys e refl);
      unique = λ k. omega (arith, count_if-replicate (has_key k) st.max_keys e refl);
      formed = count_if-replicate (is_malformed st.max_value) st.max_keys e refl;
      buffered =
          count_if-replicate (is_missized st.max_value) st.max_keys e
            (ground (arith, length-replicate {A = ℕ} (st.max_value + 1) 0));
    }

-- What `register_ns` does, by the name that it is given.
pub data Registered (st : Store) (name : Bytes) (on mem : Bool) : Type 0 where
  refused : register st name on mem ≡ (false, st) → Registered st name on mem
  again :
      (n : Ns)
      → ns_at st name ≡ some n
      → register st name on mem ≡ (true, write_ns st name (record n { enabled = on }))
      → Registered st name on mem
  fresh :
      ns_at st name ≡ none
      → length name < 64
      → length st.ns < ns_max
      → register st name on mem ≡ (true, record st { ns = st.ns ++ (new_ns st name on ∷ []) })
      → Registered st name on mem

register_new :
    (st : Store) (name : Bytes) (on mem : Bool) → ns_at st name ≡ none → Registered st name on mem
unfolding register
register_new st name on mem h =
    elim (Bool-cases
      ((is_empty name || leb 64 (length name)) || leb ns_max (length st.ns) || not mem)) [
        | inl bad ↦ refused (ground arith)
        | inr fine ↦ fresh h (ground arith) (ground arith) (ground arith)
      ]

pub register-Registered : (st : Store) (name : Bytes) (on mem : Bool) → Registered st name on mem
unfolding register
register-Registered st name on mem = elim (Option-cases (ns_at st name)) [
  | inl h ↦ register_new st name on mem h
  | inr (n, h) ↦ elim (Bool-cases (is_empty name || leb 64 (length name))) [
    | inl bad ↦ refused (ground arith)
    | inr fine ↦ again n h (ground arith)
  ]
]

named_new :
    (st : Store) (name : Bytes) (on : Bool) (k : Bytes)
    → length name < 64
    → is_named k (new_ns st name on) ≡ str_eq name k
unfolding bounded
named_new st name on k short = rw (take_of_le 63 name (omega arith))

-- The namespaces that are found after an append.
module _ (st : Store) (name : Bytes) (on : Bool) (absent : ns_at st name ≡ none)
    (short : length name < 64) where
  appended : Store
  appended = record st { ns = st.ns ++ (new_ns st name on ∷ []) }

  ns_at-append :
      (k : Bytes)
      → ns_at appended k ≡ (if str_eq name k then some (new_ns st name on) else ns_at st k)
  unfolding appended
  ns_at-append k = ns_at-first appended k ∙ elim (Bool-cases (str_eq name k)) [
    | inl same ↦
        let gone : first (is_named k) st.ns ≡ none =
          subst (λ j. first (is_named j) st.ns ≡ none) (eq_of_str_eq name k same)
            (sym (ns_at-first st name) ∙ absent) in
        first-append_last (is_named k) st.ns (new_ns st name on) gone
        ∙ rw (named_new st name on k short, same)
    | inr other ↦ elim (Option-cases (first (is_named k) st.ns)) [
      | inl gone ↦
          first-append_last (is_named k) st.ns (new_ns st name on) gone
          ∙ rw (named_new st name on k short, other) (sym (ns_at-first st k ∙ gone))
      | inr (n, there) ↦
          first-append_some (is_named k) st.ns _ there ∙ rw other (sym (ns_at-first st k ∙ there))
    ]
  ]

  append-IsValid : IsValid st → length st.ns < ns_max → IsValid appended
  unfolding appended
  append-IsValid v room = record {
    fits = omega (arith, length-append st.ns (new_ns st name on ∷ []));
    unique = λ k. one_name k (Bool-cases (str_eq name k));
    each =
        All-append (Invariant.IsValid st.max_value) st.ns _ v.each (new_ns-IsValid st name on, tt);
  }
    where
      one_name :
          (k : Bytes)
          → (str_eq name k ≡ true) ⊎ (str_eq name k ≡ false)
          → count_if (is_named k) (st.ns ++ (new_ns st name on ∷ [])) ≤ 1
      one_name k (inl same) = ground (
        arith,
        count_if-append (is_named k) st.ns (new_ns st name on ∷ []),
        named_new st name on k short,
        subst (λ j. count_if (is_named j) st.ns ≡ 0) (eq_of_str_eq name k same)
            (first-none (is_named name) st.ns (sym (ns_at-first st name) ∙ absent)),
      )
      one_name k (inr other) = ground (
        arith,
        count_if-append (is_named k) st.ns (new_ns st name on ∷ []),
        named_new st name on k short,
        v.unique k,
      )

Same-enabled : (n : Ns) (on : Bool) → Same n (record n { enabled = on })
Same-enabled n on = record { name = refl; registered = refl }

enabled-IsValid :
    {max : ℕ} {n : Ns} (on : Bool)
    → Invariant.IsValid max n
    → Invariant.IsValid max (record n { enabled = on })
enabled-IsValid on v = record {
  sized = v.sized;
  counted = v.counted;
  unique = v.unique;
  formed = v.formed;
  buffered = v.buffered;
}

-- Registering keeps the invariant, and the sizes of the store.
pub register-IsValid :
    {st : Store} (name : Bytes) (on mem : Bool) → IsValid st → IsValid (register st name on mem).1
unfolding appended
register-IsValid {st} name on mem v = elim (register-Registered st name on mem) [
  | refused e ↦ subst (λ (o : Bool × Store). IsValid o.1) (sym e) v
  | again n h e ↦
      subst (λ (o : Bool × Store). IsValid o.1) (sym e)
        (write_ns-IsValid v name h (Same-enabled n on)
          (enabled-IsValid on (ns_at-IsValid name v h)))
  | fresh h short room e ↦
      subst (λ (o : Bool × Store). IsValid o.1) (sym e) (append-IsValid st name on h short v room)
]

-- The namespace that a name has after it is registered or enabled.
abbrev pub enabled_of : Store → Bytes → Bool → Option Ns → Ns
enabled_of st name on none = new_ns st name on
enabled_of st name on (some n) = record n { enabled = on }

-- What every name finds after `name` is registered or enabled.
abbrev pub Enables : Store → Bytes → Bool → Store → Type 0
Enables st name on w =
    (k : Bytes)
    → ns_at w k
      ≡ (if str_eq name k then some (enabled_of st name on (ns_at st name)) else ns_at st k)

module _ (st : Store) (name : Bytes) (on : Bool) where
  Enables-write :
      (o : Option Ns) (w : Store)
      → ns_at st name ≡ o
      → ((k : Bytes)
          → ns_at w k ≡ (if str_eq name k then some (enabled_of st name on o) else ns_at st k))
      → Enables st name on w
  Enables-write o w h f k =
      f k ∙ ap (λ m. if str_eq name k then some (enabled_of st name on m) else ns_at st k) (sym h)

  write-Enables :
      {n : Ns}
      → IsValid st
      → ns_at st name ≡ some n
      → Enables st name on (write_ns st name (record n { enabled = on }))
  write-Enables {n} v h = Enables-write (some n) _ h (ns_at-write_ns v name h (Same-enabled n on))

  pub register-Enables :
      (mem : Bool)
      → IsValid st
      → (register st name on mem).0 ≡ true
      → Enables st name on (register st name on mem).1
  unfolding appended
  register-Enables mem v ok = elim (register-Registered st name on mem) [
    | refused e ↦ absurd (ground arith)
    | again n h e ↦ subst (λ (o : Bool × Store). Enables st name on o.1) (sym e) (write-Enables v h)
    | fresh h short room e ↦
        subst (λ (o : Bool × Store). Enables st name on o.1) (sym e)
          (Enables-write none _ h (ns_at-append st name on h short))
  ]

-- A call that returns -1 leaves the store as it was.
register-refused :
    (st : Store) (name : Bytes) (on mem : Bool)
    → (register st name on mem).0 ≡ false
    → (register st name on mem).1 ≡ st
register-refused st name on mem no_ok = elim (register-Registered st name on mem) [
  | refused e ↦ ap (λ (o : Bool × Store). o.1) e
  | again n h e ↦ absurd (ground arith)
  | fresh h short room e ↦ absurd (ground arith)
]

-- The outcome of `edge_state_ns_set_enabled`.
pub record Switched (st : Store) (name : Bytes) (on : Bool) (o : Bool × Store) : Type 0 where
  pub valid : IsValid o.1
  pub done : o.0 ≡ true → Enables st name on o.1
  pub kept : o.0 ≡ false → o.1 ≡ st

pub set_enabled_present :
    (st : Store) (name : Bytes) (on mem : Bool) {n : Ns}
    → ns_at st name ≡ some n
    → set_enabled st (some name) on mem ≡ (true, write_ns st name (record n { enabled = on }))
unfolding set_enabled
set_enabled_present st name on mem h = ground arith

set_enabled_absent :
    (st : Store) (name : Bytes) (on mem : Bool)
    → ns_at st name ≡ none
    → set_enabled st (some name) on mem ≡ register st name on mem
unfolding set_enabled
set_enabled_absent st name on mem h = ground arith

-- On a valid store, `edge_state_ns_set_enabled` of a name keeps the invariant. When it returns 0,
-- the name finds a namespace that is enabled as asked, the one it found before with all its entries
-- or a new and empty one, and every other name finds what it found; when it returns -1 the store is
-- as it was.
pub set_enabled-Switched :
    (st : Store) (name : Bytes) (on mem : Bool)
    → IsValid st
    → Switched st name on (set_enabled st (some name) on mem)
set_enabled-Switched st name on mem v = elim (Option-cases (ns_at st name)) [
  | inl h ↦ subst (Switched st name on) (sym (set_enabled_absent st name on mem h)) (record {
    valid = register-IsValid name on mem v;
    done = register-Enables st name on mem v;
    kept = register-refused st name on mem;
  })
  | inr (n, h) ↦ subst (Switched st name on) (sym (set_enabled_present st name on mem h)) (record {
    valid =
        write_ns-IsValid v name h (Same-enabled n on) (enabled-IsValid on (ns_at-IsValid name v h));
    done = λ _. write-Enables st name on v h;
    kept = λ f. cc;
  })
]
