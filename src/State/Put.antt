-- ===== src/State/Put.antt =====
-- What `edge_state_put` returns and what it leaves in the store.
use edgehost.Prelude.{
  ℕ, ◌≤◌, ◌≡◌, refl, ◌≢◌, true, not, ◌&&◌, ◌⊎◌, inl, inr, Option, none, some, arith, Bool-cases,
  Option-cases, ◌==◌, ltb, if◌then◌else◌, length, ap, subst, sym, ◌∙◌,
}
use edgehost.Prelude.Text.{Bytes, str_eq}
use edgehost.State.Check.{key_valid, of_class, key_valid_lem, json_ok}
use edgehost.State.Namespace.{Ns, store, remove}
use edgehost.State.Namespace
use edgehost.State.Namespace.Invariant.{
  store-IsValid, remove-IsValid, Stored, kept, added, is_full, store-Stored, Removed, missing, gone,
  remove-Removed,
}
use edgehost.State.Namespace.Lookup.{lookup, lookup-store, store-none}
use edgehost.State.{
  Store, Err, ok, too_large, ns_full, ns_disabled, bad_key, bad_json, bad_ns, ns_at, write_ns, put,
  put_found, put_checked,
}
use edgehost.State.Invariant.{IsValid, ns_at-IsValid, write_ns-IsValid}
use edgehost.State.View.{read, store-Same, read-write_ns, flag, flag-write_ns}

-- The code when the checks are passed: NS_FULL when the key is new and no slot is free.
abbrev pub room_code : Ns → Option Bytes → Err
room_code n none = if n.count == n.capacity then ns_full else ok
room_code n (some v) = ok

-- The code that `edge_state_put` returns, from what a reader of the store can see.
pub put_code : Store → Option Ns → Bytes → Bytes → Err
put_code st none key value = bad_ns
put_code st (some n) key value =
    if not n.enabled
    then ns_disabled
    else if not (of_class key)
    then bad_key
    else if ltb st.max_value (length value)
    then too_large
    else if not (json_ok value)
    then bad_json
    else room_code n (lookup n key)

-- What `edge_state_put` returns and leaves.
pub record PutOutcome (st : Store) (name key value : Bytes) (o : Err × Store) : Type 0 where
  pub code : o.0 ≡ put_code st (ns_at st name) key value
  pub valid : IsValid o.1
  pub wrote :
      o.0 ≡ ok
      → (j k : Bytes)
      → read o.1 j k ≡ (if str_eq name j && str_eq key k then some value else read st j k)
  pub kept : o.0 ≢ ok → o.1 ≡ st
  pub flags : (j : Bytes) → flag (ns_at o.1 j) ≡ flag (ns_at st j)

-- A refused call: the code is the one given, and the store is as it was.
refused-PutOutcome :
    {st : Store} (name key value : Bytes) (e : Err)
    → IsValid st
    → e ≢ ok
    → e ≡ put_code st (ns_at st name) key value
    → PutOutcome st name key value (e, st)
refused-PutOutcome name key value e v bad c = record {
  code = c;
  valid = v;
  wrote = λ h. absurd (bad h);
  kept = λ _. refl;
  flags = λ j. refl;
}

put_absent :
    (st : Store) (name key value : Bytes)
    → ns_at st name ≡ none
    → put st (some name) (some key) (some value) ≡ (bad_ns, st)
unfolding put
put_absent st name key value h = ground arith

put_present :
    (st : Store) (name key value : Bytes) {n : Ns}
    → ns_at st name ≡ some n
    → put st (some name) (some key) (some value) ≡ put_found st name n key value
unfolding put
put_present st name key value h = ground arith

-- The checks in the order of the source, with what is left for a call that passes them.
put_found_cases :
    (st : Store) (name : Bytes) (n : Ns) (key value : Bytes)
    → ((e : Err) × (put_found st name n key value ≡ (e, st))
        × (e ≢ ok)
        × (e ≡ put_code st (some n) key value))
      ⊎ ((key_valid key ≡ true)
          × (length value ≤ st.max_value)
          × (put_found st name n key value ≡ put_checked st name n key value)
          × (put_code st (some n) key value ≡ room_code n (lookup n key)))
unfolding put_found put_code
put_found_cases st name n key value = elim (Bool-cases n.enabled) [
  | inr off ↦ inl (ns_disabled, ground arith, λ e. cc, ground arith)
  | inl on ↦ elim (Bool-cases (key_valid key)) [
    | inr bad ↦ inl (bad_key, ground arith, λ e. cc, ground (arith, key_valid_lem key))
    | inl good ↦ elim (Bool-cases (ltb st.max_value (length value))) [
      | inl long ↦ inl (too_large, ground arith, λ e. cc, ground (arith, key_valid_lem key))
      | inr short ↦ elim (Bool-cases (json_ok value)) [
        | inr bad ↦ inl (bad_json, ground arith, λ e. cc, ground (arith, key_valid_lem key))
        | inl good_json ↦ inr (good, ground arith, ground arith, ground (arith, key_valid_lem key))
      ]
    ]
  ]
]

put_checked_full :
    (st : Store) (name : Bytes) (n : Ns) (key value : Bytes)
    → store n key value ≡ none
    → put_checked st name n key value ≡ (ns_full, st)
unfolding put_checked
put_checked_full st name n key value h = ground arith

put_checked_stored :
    (st : Store) (name : Bytes) (n m : Ns) (key value : Bytes)
    → store n key value ≡ some m
    → put_checked st name n key value ≡ (ok, write_ns st name m)
unfolding put_checked
put_checked_stored st name n m key value h = ground arith

put_stored-PutOutcome :
    {st : Store} (name key value : Bytes) {n m : Ns}
    → IsValid st
    → ns_at st name ≡ some n
    → key_valid key ≡ true
    → length value ≤ st.max_value
    → store n key value ≡ some m
    → ok ≡ put_code st (ns_at st name) key value
    → PutOutcome st name key value (ok, write_ns st name m)
put_stored-PutOutcome {st} name key value {n} {m} v h good short s c =
    let same = store-Same n m key value s in
    record {
      code = c;
      valid =
          write_ns-IsValid v name h same.0
            (store-IsValid n key value (ns_at-IsValid name v h) good short s);
      wrote = λ _.
          read-write_ns v name h same.0 key (some value)
            (lookup-store key value (ns_at-IsValid name v h) good short s);
      kept = λ f. absurd (f refl);
      flags = flag-write_ns v name h same.0 same.1;
    }

full_code :
    {max : ℕ} (n : Ns) (key value : Bytes)
    → Namespace.Invariant.IsValid max n
    → store n key value ≡ none
    → room_code n (lookup n key) ≡ ns_full
full_code n key value v h = ground (arith, (store-none n key value v).0 h)

room_code-ok :
    (n : Ns) (o : Option Bytes) → ((o ≡ none) × (n.count ≡ n.capacity) → ⊥) → room_code n o ≡ ok
room_code-ok n none f = elim (Bool-cases (n.count == n.capacity)) [
  | inl e ↦ absurd (f (refl, ground arith))
  | inr e ↦ rw e
]
room_code-ok n (some v) f = refl

stored_code :
    {max : ℕ} (n m : Ns) (key value : Bytes)
    → Namespace.Invariant.IsValid max n
    → store n key value ≡ some m
    → room_code n (lookup n key) ≡ ok
stored_code n m key value v h =
    room_code-ok n (lookup n key) (λ full. cc ((store-none n key value v).1 full, h))

put_found-PutOutcome :
    {st : Store} (name key value : Bytes) {n : Ns}
    → IsValid st
    → ns_at st name ≡ some n
    → PutOutcome st name key value (put_found st name n key value)
put_found-PutOutcome {st} name key value {n} v h = elim (put_found_cases st name n key value) [
  | inl (e, r, bad, c) ↦
      subst (PutOutcome st name key value) (sym r)
        (refused-PutOutcome name key value e v bad (c ∙ ap (λ o. put_code st o key value) (sym h)))
  | inr (good, short, r, c) ↦ elim (Option-cases (store n key value)) [
    | inl f ↦
        subst (PutOutcome st name key value) (sym (r ∙ put_checked_full st name n key value f)) (
          refused-PutOutcome name key value ns_full v (λ e. cc)
            (sym (
              ap (λ o. put_code st o key value) h
              ∙ c
              ∙ full_code n key value (ns_at-IsValid name v h) f)))
    | inr (m, s) ↦
        subst (PutOutcome st name key value) (sym (r ∙ put_checked_stored st name n m key value s))
          (put_stored-PutOutcome name key value v h good short s (
            sym (
              ap (λ o. put_code st o key value) h
              ∙ c
              ∙ stored_code n m key value (ns_at-IsValid name v h) s)))
  ]
]

-- On a valid store, `edge_state_put` with a name, a key and a value: the code is the one that the
-- source's checks give in their order, with BAD_KEY for a key that is not 1 to 127 characters of
-- [a-z0-9_./:-], so also for one of 128, and NS_FULL exactly when the key is new and every slot is
-- used; the invariant is kept; on OK that key of that namespace has the value and every other key of
-- every namespace what it had; on any other code the store is as it was; no name's flag changes.
pub put-PutOutcome :
    {st : Store} (name key value : Bytes)
    → IsValid st
    → PutOutcome st name key value (put st (some name) (some key) (some value))
unfolding put_code
put-PutOutcome {st} name key value v = elim (Option-cases (ns_at st name)) [
  | inl h ↦ subst (PutOutcome st name key value) (sym (put_absent st name key value h)) (
      refused-PutOutcome name key value bad_ns v (λ e. cc)
        (ap (λ o. put_code st o key value) (sym h)))
  | inr (n, h) ↦
      subst (PutOutcome st name key value) (sym (put_present st name key value h))
        (put_found-PutOutcome name key value v h)
]

-- A call that returns OK found an enabled namespace and was given a valid key.
pub put_code-ok :
    (st : Store) (o : Option Ns) (key value : Bytes)
    → put_code st o key value ≡ ok
    → (flag o ≡ some true) × (key_valid key ≡ true)
unfolding put_code
put_code-ok st none key value h = cc
put_code-ok st (some n) key value h = elim (Bool-cases (n.enabled && key_valid key)) [
  | inl good ↦ ground arith
  | inr bad ↦ absurd (ground (arith, key_valid_lem key))
]
