-- ===== src/State/Keys.antt =====
-- What `edge_state_list` returns.
use edgehost.Prelude.{
  ℕ, ◌≡◌, ◌≢◌, true, false, ◌⊎◌, inl, inr, List, Option, none, some, arith, Bool-cases,
  Option-cases, ◌==◌, ltb, if◌then◌else◌, subst,
}
use edgehost.Prelude.Text.{Bytes}
use edgehost.State.Namespace.{Ns}
use edgehost.State.{Store, ns_at}
use edgehost.State.Invariant.{IsValid, ns_at-IsValid}
use edgehost.State.View.{flag}
use edgehost.State.{list, list_cap}
use edgehost.State.Namespace.{list_from}
use edgehost.State.Namespace.Listing.{Listing, list_from-Listing}
use edgehost.Prelude.{min}

list_room : (m : ℕ) → (if ltb list_cap m then list_cap else m) ≡ min m list_cap
list_room m = ground arith

list_open :
    (st : Store) (name : Bytes) (prefix : Option Bytes) (max_keys : ℕ) (n : Ns)
    → ns_at st name ≡ some n
    → n.enabled ≡ true
    → (max_keys == 0) ≡ false
    → list st (some name) prefix (some max_keys)
      ≡ some (list_from prefix n.entries (min max_keys list_cap))
unfolding list
list_open st name prefix max_keys n h on asked =
    subst (λ r. list st (some name) prefix (some max_keys) ≡ some (list_from prefix n.entries r))
      (list_room max_keys) (ground arith)

-- On a valid store, `edge_state_list` of a name with an array for the keys returns -1 only when no keys are asked for or no
-- enabled namespace has that name. Otherwise an enabled namespace has the name, and the number of
-- keys it returns is the number of keys there that pass the prefix, cut to the number asked for and
-- to 1000; each of them has a value and passes the prefix, none is listed twice, and if fewer are
-- returned than there is room for, every such key is listed.
pub list-Listing :
    {st : Store} (name : Bytes) (prefix : Option Bytes) (max_keys : ℕ)
    → IsValid st
    → ((list st (some name) prefix (some max_keys) ≡ none)
        × ((max_keys ≡ 0) ⊎ (flag (ns_at st name) ≢ some true)))
      ⊎ ((n : Ns) × (ks : List Bytes) × (ns_at st name ≡ some n)
          × (n.enabled ≡ true)
          × (list st (some name) prefix (some max_keys) ≡ some ks)
          × Listing n prefix (min max_keys list_cap) ks)
unfolding list
list-Listing {st} name prefix max_keys v = elim (Option-cases (ns_at st name)) [
  | inl h ↦ inl (ground arith, inr (rw h (λ e. cc)))
  | inr (n, h) ↦ elim (Bool-cases n.enabled) [
    | inr off ↦ inl (ground arith, inr (rw (h, off) (λ e. cc)))
    | inl on ↦ elim (Bool-cases (max_keys == 0)) [
      | inl zero_asked ↦ inl (ground arith, inl (ground arith))
      | inr asked ↦ inr (
        n,
        list_from prefix n.entries (min max_keys list_cap),
        h,
        on,
        list_open st name prefix max_keys n h on asked,
        list_from-Listing prefix (min max_keys list_cap) (ns_at-IsValid name v h),
      )
    ]
  ]
]
