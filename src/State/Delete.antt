-- ===== src/State/Delete.antt =====
-- What `edge_state_delete` returns and leaves.
use edgehost.Prelude.{
  ◌≡◌, refl, ◌≢◌, true, false, not, ◌&&◌, inl, inr, Option, none, some, arith, Bool-cases,
  Option-cases, if◌then◌else◌, subst, sym,
}
use edgehost.Prelude.Text.{Bytes, str_eq}
use edgehost.State.Namespace.{Ns, remove}
use edgehost.State.Namespace.Invariant.{remove-IsValid}
use edgehost.State.Namespace.Lookup.{lookup, lookup-remove, remove-none}
use edgehost.State.{
  Store, Err, ok, not_found, ns_disabled, bad_ns, ns_at, write_ns, delete, delete_found,
}
use edgehost.State.Invariant.{IsValid, ns_at-IsValid, write_ns-IsValid}
use edgehost.State.View.{read, remove-Same, read-write_ns, flag, flag-write_ns}

-- The code of `edge_state_delete`, from what a reader of the store can see.
pub delete_code : Option Ns → Bytes → Err
delete_code none key = bad_ns
delete_code (some n) key =
    if not n.enabled then ns_disabled else elim (lookup n key) [ none ↦ not_found | some v ↦ ok ]

pub record DeleteOutcome (st : Store) (name key : Bytes) (o : Err × Store) : Type 0 where
  pub code : o.0 ≡ delete_code (ns_at st name) key
  pub valid : IsValid o.1
  pub erased :
      o.0 ≡ ok
      → (j k : Bytes) → read o.1 j k ≡ (if str_eq name j && str_eq key k then none else read st j k)
  pub kept : o.0 ≢ ok → o.1 ≡ st
  pub flags : (j : Bytes) → flag (ns_at o.1 j) ≡ flag (ns_at st j)

refused-DeleteOutcome :
    {st : Store} (name key : Bytes) (e : Err)
    → IsValid st
    → e ≢ ok
    → e ≡ delete_code (ns_at st name) key
    → DeleteOutcome st name key (e, st)
refused-DeleteOutcome name key e v bad c = record {
  code = c;
  valid = v;
  erased = λ h. absurd (bad h);
  kept = λ _. refl;
  flags = λ j. refl;
}

delete_disabled :
    (st : Store) (name key : Bytes) (n : Ns)
    → ns_at st name ≡ some n
    → n.enabled ≡ false
    → (delete st (some name) (some key) ≡ (ns_disabled, st))
      × (delete_code (ns_at st name) key ≡ ns_disabled)
unfolding delete delete_found delete_code
delete_disabled st name key n h off = ground arith

delete_missing :
    (st : Store) (name key : Bytes) (n : Ns)
    → ns_at st name ≡ some n
    → n.enabled ≡ true
    → remove n key ≡ none
    → lookup n key ≡ none
    → (delete st (some name) (some key) ≡ (not_found, st))
      × (delete_code (ns_at st name) key ≡ not_found)
unfolding delete delete_found delete_code
delete_missing st name key n h on r l = ground arith

delete_present :
    (st : Store) (name key : Bytes) (n m : Ns)
    → ns_at st name ≡ some n
    → n.enabled ≡ true
    → remove n key ≡ some m
    → lookup n key ≢ none
    → (delete st (some name) (some key) ≡ (ok, write_ns st name m))
      × (delete_code (ns_at st name) key ≡ ok)
unfolding delete delete_found delete_code
delete_present st name key n m h on r l = ground arith

delete_absent :
    (st : Store) (name key : Bytes)
    → ns_at st name ≡ none
    → (delete st (some name) (some key) ≡ (bad_ns, st)) × (delete_code (ns_at st name) key ≡ bad_ns)
unfolding delete delete_code
delete_absent st name key h = ground arith

removed-DeleteOutcome :
    {st : Store} (name key : Bytes) (n m : Ns)
    → IsValid st
    → ns_at st name ≡ some n
    → remove n key ≡ some m
    → delete_code (ns_at st name) key ≡ ok
    → DeleteOutcome st name key (ok, write_ns st name m)
removed-DeleteOutcome name key n m v h r c =
    let same = remove-Same n m key r in
    record {
      code = sym c;
      valid = write_ns-IsValid v name h same.0 (remove-IsValid n key (ns_at-IsValid name v h) r);
      erased = λ _.
          read-write_ns v name h same.0 key none (lookup-remove key (ns_at-IsValid name v h) r);
      kept = λ f. absurd (f refl);
      flags = flag-write_ns v name h same.0 same.1;
    }

-- On a valid store, `edge_state_delete` with a name and a key: BAD_NS, NS_DISABLED or NOT_FOUND in
-- that order of the checks, and the store as it was; else OK, that key of that namespace has no
-- value any more and every other key of every namespace has what it had. The invariant is kept and
-- no flag changes.
pub delete-DeleteOutcome :
    {st : Store} (name key : Bytes)
    → IsValid st
    → DeleteOutcome st name key (delete st (some name) (some key))
delete-DeleteOutcome {st} name key v = elim (Option-cases (ns_at st name)) [
  | inl h ↦ refuse bad_ns (λ e. cc) (delete_absent st name key h)
  | inr (n, h) ↦ elim (Bool-cases n.enabled) [
    | inr off ↦ refuse ns_disabled (λ e. cc) (delete_disabled st name key n h off)
    | inl on ↦ elim (Option-cases (remove n key)) [
      | inl r ↦
          refuse not_found (λ e. cc)
            (delete_missing st name key n h on r ((remove-none n key (ns_at-IsValid name v h)).0 r))
      | inr (m, r) ↦
          let d =
            delete_present st name key n m h on r
              (λ l. cc ((remove-none n key (ns_at-IsValid name v h)).1 l)) in
          subst (DeleteOutcome st name key) (sym d.0) (removed-DeleteOutcome name key n m v h r d.1)
    ]
  ]
]
  where
    refuse :
        (e : Err)
        → e ≢ ok
        → (delete st (some name) (some key) ≡ (e, st)) × (delete_code (ns_at st name) key ≡ e)
        → DeleteOutcome st name key (delete st (some name) (some key))
    refuse e bad d =
        subst (DeleteOutcome st name key) (sym d.0)
          (refused-DeleteOutcome name key e v bad (sym d.1))
