-- ===== src/State/Flags.antt =====
-- What registering, enabling and configuring do to the flags and to the data of a store.
use edgehost.Prelude.{
  ℕ, ◌≡◌, refl, ◌≢◌, Bool, true, inl, inr, suc, List, [], ◌∷◌, Option, none, some, Bool-cases,
  Option-cases, if◌then◌else◌, ap, sym, ◌∙◌, All,
}
use edgehost.Prelude.Table.{first_of_none, count_if-replicate}
use edgehost.Prelude.Text.{Bytes, text, str_eq, eq_of_str_eq}
use edgehost.Config.{Config}
use edgehost.State.Namespace.{Ns, has_key}
use edgehost.State.Namespace.Lookup.{lookup, value_at}
use edgehost.State.{Store, ns_at, new_ns, empty_entry, set_enabled, apply_config}
use edgehost.State.Invariant.{IsValid}
use edgehost.State.Register.{Enables, enabled_of, set_enabled-Switched, set_enabled_present}
use edgehost.State.View.{read, lookup_in, flag}

lookup-new_ns :
    (st : Store) (name : Bytes) (on : Bool) (key : Bytes) → lookup (new_ns st name on) key ≡ none
lookup-new_ns st name on key = ap value_at (
    first_of_none (has_key key) (new_ns st name on).entries
      (count_if-replicate (has_key key) st.max_keys (empty_entry st.max_value) refl))

lookup-enabled_of :
    (st : Store) (name : Bytes) (on : Bool) (o : Option Ns) (key : Bytes)
    → lookup (enabled_of st name on o) key ≡ lookup_in o key
lookup-enabled_of st name on none key = lookup-new_ns st name on key
lookup-enabled_of st name on (some n) key = refl

flag-enabled_of :
    (st : Store) (name : Bytes) (on : Bool) (o : Option Ns) → (enabled_of st name on o).enabled ≡ on
flag-enabled_of st name on none = refl
flag-enabled_of st name on (some n) = refl

module _ (st w : Store) (name : Bytes) (on : Bool) (e : Enables st name on w) where
  -- Only the flag of that name changes,
  pub flag-Enables :
      (k : Bytes) → flag (ns_at w k) ≡ (if str_eq name k then some on else flag (ns_at st k))
  flag-Enables k = ap flag (e k) ∙ elim (Bool-cases (str_eq name k)) [
    | inl same ↦ rw same (ap some (flag-enabled_of st name on (ns_at st name)))
    | inr other ↦ rw other
  ]

  -- and no data.
  pub read-Enables : (k key : Bytes) → read w k key ≡ read st k key
  read-Enables k key = ap (λ o. lookup_in o key) (e k) ∙ elim (Bool-cases (str_eq name k)) [
    | inl same ↦ rw same (
        lookup-enabled_of st name on (ns_at st name) key
        ∙ ap (λ x. read st x key) (eq_of_str_eq name k same))
    | inr other ↦ rw other
  ]

-- A list of settings, applied in order; the last one of a name counts.
abbrev pub Settings : Type 0
Settings = List (Bytes × Bool)

unfoldable pub chosen : Settings → Bytes → Option Bool → Option Bool
chosen [] k was = was
chosen ((name, on) ∷ l) k was = chosen l k (if str_eq name k then some on else was)

-- What a store keeps and shows after settings.
pub record Set (st : Store) (l : Settings) (w : Store) : Type 0 where
  pub valid : IsValid w
  pub flags : (k : Bytes) → flag (ns_at w k) ≡ chosen l k (flag (ns_at st k))
  pub data_kept : (k key : Bytes) → read w k key ≡ read st k key

pub Set-none : {st : Store} → IsValid st → Set st [] st
unfolding chosen
Set-none v = record { valid = v; flags = λ k. refl; data_kept = λ k key. refl }

-- One more setting in front.
pub Set-more :
    {st w u : Store} (name : Bytes) (on : Bool) (l : Settings)
    → Enables st name on w
    → Set w l u
    → Set st ((name, on) ∷ l) u
unfolding chosen
Set-more name on l e s = record {
  valid = s.valid;
  flags = λ k. s.flags k ∙ ap (chosen l k) (flag-Enables _ _ name on e k);
  data_kept = λ k key. s.data_kept k key ∙ read-Enables _ _ name on e k key;
}

abbrev pub settings : Config → Settings
settings c =
    (text "net.core", c.state_net_core_enabled)
    ∷ (text "map.dynamic", c.state_map_dynamic_enabled)
    ∷ (text "net.pon", c.state_net_pon_enabled)
    ∷ (text "net.home", c.state_net_home_enabled)
    ∷ (text "electric", c.state_electric_enabled)
    ∷ (text "inventory", c.state_inventory_enabled)
    ∷ []

set_all : Store → Settings → (ℕ → Bool) → ℕ → Store
set_all st [] mem i = st
set_all st ((name, on) ∷ l) mem i = set_all (set_enabled st (some name) on (mem i)).1 l mem (suc i)

-- Names that all find a namespace.
abbrev pub Present : Store → Settings → Type 0
Present st l = All (λ (p : Bytes × Bool). flag (ns_at st p.0) ≢ none) l

Present-Enables :
    (st w : Store) (name : Bytes) (on : Bool) (l : Settings)
    → Enables st name on w
    → Present st l
    → Present w l
Present-Enables st w name on [] e h = tt
Present-Enables st w name on ((k, b) ∷ l) e h = (
  λ f. still k h.0 (sym (flag-Enables st w name on e k) ∙ f),
  Present-Enables st w name on l e h.1,
)
  where
    still :
        (j : Bytes)
        → flag (ns_at st j) ≢ none
        → (if str_eq name j then some on else flag (ns_at st j)) ≢ none
    still j there gone = elim (Bool-cases (str_eq name j)) [
      | inl same ↦ cc (rw same at gone)
      | inr other ↦ there (rw other at gone)
    ]

set_enabled-Present :
    (st : Store) (name : Bytes) (on mem : Bool)
    → flag (ns_at st name) ≢ none
    → (set_enabled st (some name) on mem).0 ≡ true
set_enabled-Present st name on mem there = elim (Option-cases (ns_at st name)) [
  | inl h ↦ absurd (there (ap flag h))
  | inr (n, h) ↦ ap (λ (o : Bool × Store). o.0) (set_enabled_present st name on mem h)
]

set_all-Set :
    (st : Store) (l : Settings) (mem : ℕ → Bool) (i : ℕ)
    → IsValid st
    → Present st l
    → Set st l (set_all st l mem i)
unfolding set_all
set_all-Set st [] mem i v there = Set-none v
set_all-Set st ((name, on) ∷ l) mem i v there =
    let s = set_enabled-Switched st name on (mem i) v in
    let e = s.done (set_enabled-Present st name on (mem i) there.0) in
    Set-more name on l e (
      set_all-Set (set_enabled st (some name) on (mem i)).1 l mem (suc i) s.valid
        (Present-Enables st _ name on l e there.1))

-- On a valid store that has the six namespaces, `edge_state_apply_config` of a configuration gives
-- each of them the flag that is configured for it and leaves every other flag; no value of any key
-- changes, and the invariant is kept.
pub apply_config-Set :
    (st : Store) (c : Config) (mem : ℕ → Bool)
    → IsValid st
    → Present st (settings c)
    → Set st (settings c) (apply_config st (some c) mem)
unfolding apply_config set_all
apply_config-Set st c mem v there = set_all-Set st (settings c) mem 1 v there
