-- ===== src/State/Create.antt =====
-- `edge_state_create_with_config`: the namespaces of a store as it is created.
use edgehost.Prelude.{
  ◌+◌, ◌≤◌, ◌<◌, ◌≡◌, refl, Bool, true, false, ◌||◌, inl, inr, [], ◌∷◌, Option, some, arith,
  Option-cases, leb, length, length-set, length-append, subst, sym, ◌∙◌, ap, All,
}
use edgehost.Prelude.Text.{Bytes, text, is_empty}
use edgehost.State.Namespace.{Ns}
use edgehost.State.{
  Store, StoreConfig, ns_max, ns_at, write_ns, new_ns, register, register_hooks, effective_config,
  create_with_config,
}
use edgehost.State.Invariant.{IsValid, ns_at-At, write_ns_lem}
use edgehost.State.Register.{
  refused, again, fresh, register-Registered, register-IsValid, register-Enables,
}
use edgehost.State.Flags.{Set, Set-none, Set-more, Settings}

-- A name that `register_ns` takes.
abbrev pub is_bad_name : Bytes → Bool
is_bad_name name = is_empty name || leb 64 (length name)

register_room :
    (st : Store) (name : Bytes) (on : Bool)
    → is_bad_name name ≡ false
    → length st.ns < ns_max
    → (register st name on true).0 ≡ true
unfolding register
register_room st name on fine room = elim (Option-cases (ns_at st name)) [
  | inl h ↦ ground arith
  | inr (n, h) ↦ ground arith
]

length-write_ns :
    (st : Store) (name : Bytes) (n m : Ns)
    → ns_at st name ≡ some n
    → length (write_ns st name m).ns ≡ length st.ns
length-write_ns st name n m h =
    let (i, a) = ns_at-At st name h in
    ap (λ (w : Store). length w.ns) (write_ns_lem st name m i a.found) ∙ length-set st.ns i m

length-register :
    (st : Store) (name : Bytes) (on mem : Bool)
    → length (register st name on mem).1.ns ≤ length st.ns + 1
length-register st name on mem = elim (register-Registered st name on mem) [
  | refused e ↦ subst (λ (o : Bool × Store). length o.1.ns ≤ length st.ns + 1) (sym e) (omega arith)
  | again n h e ↦
      subst (λ (o : Bool × Store). length o.1.ns ≤ length st.ns + 1) (sym e)
        (omega (arith, length-write_ns st name n (record n { enabled = on }) h))
  | fresh h short room e ↦
      subst (λ (o : Bool × Store). length o.1.ns ≤ length st.ns + 1) (sym e)
        (omega (arith, length-append st.ns (new_ns st name on ∷ [])))
]

register_all : Store → Settings → Store
register_all st [] = st
register_all st ((name, on) ∷ l) = register_all (register st name on true).1 l

register_all-Set :
    (st : Store) (l : Settings)
    → IsValid st
    → All (λ (p : Bytes × Bool). is_bad_name p.0 ≡ false) l
    → length st.ns + length l ≤ ns_max
    → Set st l (register_all st l)
unfolding register_all
register_all-Set st [] v fine room = Set-none v
register_all-Set st ((name, on) ∷ l) v fine room =
    let ok = register_room st name on fine.0 (omega arith) in
    Set-more name on l (register-Enables st name on true v ok) (
      register_all-Set (register st name on true).1 l (register-IsValid name on true v) fine.1
        (omega (arith, length-register st name on true)))

abbrev pub no_namespaces : StoreConfig → Store
no_namespaces c = record { ns = []; max_keys = c.max_keys_per_ns; max_value = c.max_value_bytes }

pub no_namespaces-IsValid : (c : StoreConfig) → IsValid (no_namespaces c)
no_namespaces-IsValid c = record { fits = omega arith; unique = λ k. omega arith; each = tt }

-- The namespaces of a new store.
abbrev pub initial : Settings
initial =
    (text "net.core", true)
    ∷ (text "map.dynamic", true)
    ∷ (text "net.pon", false)
    ∷ (text "net.home", false)
    ∷ (text "electric", false)
    ∷ (text "inventory", false)
    ∷ []

initial_fine : All (λ (p : Bytes × Bool). is_bad_name p.0 ≡ false) initial
initial_fine = (refl, (refl, (refl, (refl, (refl, (refl, tt))))))

-- What is created.
pub record Created (cfg : Option StoreConfig) (o : Option Store) : Type 0 where
  pub store : Store
  pub made : o ≡ some store
  pub content : Set (no_namespaces (effective_config cfg)) initial store

-- When every allocation succeeds, `edge_state_create_with_config` returns a valid store, in which
-- exactly `net.core` and `map.dynamic` are enabled, `net.pon`, `net.home`, `electric` and
-- `inventory` are present but disabled, no other name finds a namespace, and no key has a value.
pub create_with_config-Created :
    (cfg : Option StoreConfig) → Created cfg (create_with_config cfg (λ i. true))
unfolding create_with_config register_hooks register_all
create_with_config-Created cfg =
    let st = no_namespaces (effective_config cfg) in
    let fits_first = register_room st (text "net.core") true refl (omega arith) in
    let fits_second =
      register_room (register st (text "net.core") true true).1 (text "map.dynamic") true refl
        (omega (arith, length-register st (text "net.core") true true)) in
    record {
      store = register_all st initial;
      made = rw (fits_first, fits_second);
      content =
          register_all-Set st initial (no_namespaces-IsValid (effective_config cfg)) initial_fine
            (omega arith);
    }
