-- ===== src/State/Run.antt =====
-- Any sequence of calls that change a store.
use edgehost.Prelude.{
  ℕ, ◌≡◌, Bool, true, List, [], ◌∷◌, Option, none, some, some_inj, subst, ◌∙◌, sym,
}
use edgehost.Prelude.Text.{Bytes}
use edgehost.Config.{Config}
use edgehost.State.{Store, StoreConfig, create_with_config, set_enabled, apply_config, put, delete}
use edgehost.State.Invariant.{IsValid}
use edgehost.State.Register.{set_enabled-Switched}
use edgehost.State.Put.{put-PutOutcome}
use edgehost.State.Delete.{delete-DeleteOutcome}
use edgehost.State.Create.{create_with_config-Created}

pub data Call : Type 0 where
  puts : (name key value : Option Bytes) → Call
  deletes : (name key : Option Bytes) → Call
  switches : (name : Option Bytes) (on mem : Bool) → Call
  configures : (cfg : Option Config) (mem : ℕ → Bool) → Call

pub step : Store → Call → Store
step st (puts name key value) = (put st name key value).1
step st (deletes name key) = (delete st name key).1
step st (switches name on mem) = (set_enabled st name on mem).1
step st (configures cfg mem) = apply_config st cfg mem

pub run : Store → List Call → Store
run st [] = st
run st (c ∷ cs) = run (step st c) cs

put-IsValid :
    (st : Store) (name key value : Option Bytes) → IsValid st → IsValid (put st name key value).1
unfolding put
put-IsValid st none key value v = v
put-IsValid st (some name) none value v = v
put-IsValid st (some name) (some key) none v = v
put-IsValid st (some name) (some key) (some value) v = (put-PutOutcome name key value v).valid

delete-IsValid :
    (st : Store) (name key : Option Bytes) → IsValid st → IsValid (delete st name key).1
unfolding delete
delete-IsValid st none key v = v
delete-IsValid st (some name) none v = v
delete-IsValid st (some name) (some key) v = (delete-DeleteOutcome name key v).valid

set_enabled-IsValid :
    {st : Store} (name : Option Bytes) (on mem : Bool)
    → IsValid st
    → IsValid (set_enabled st name on mem).1
unfolding set_enabled
set_enabled-IsValid none on mem v = v
set_enabled-IsValid {st} (some name) on mem v = (set_enabled-Switched st name on mem v).valid

apply_config-IsValid :
    {st : Store} (cfg : Option Config) (mem : ℕ → Bool)
    → IsValid st
    → IsValid (apply_config st cfg mem)
unfolding apply_config
apply_config-IsValid none mem v = v
apply_config-IsValid (some c) mem v =
    let v1 = set_enabled-IsValid _ c.state_net_core_enabled (mem 1) v in
    let v2 = set_enabled-IsValid _ c.state_map_dynamic_enabled (mem 2) v1 in
    let v3 = set_enabled-IsValid _ c.state_net_pon_enabled (mem 3) v2 in
    let v4 = set_enabled-IsValid _ c.state_net_home_enabled (mem 4) v3 in
    let v5 = set_enabled-IsValid _ c.state_electric_enabled (mem 5) v4 in
    set_enabled-IsValid _ c.state_inventory_enabled (mem 6) v5

step-IsValid : (st : Store) (c : Call) → IsValid st → IsValid (step st c)
unfolding step
step-IsValid st (puts name key value) v = put-IsValid st name key value v
step-IsValid st (deletes name key) v = delete-IsValid st name key v
step-IsValid st (switches name on mem) v = set_enabled-IsValid name on mem v
step-IsValid st (configures cfg mem) v = apply_config-IsValid cfg mem v

run-IsValid : (st : Store) (cs : List Call) → IsValid st → IsValid (run st cs)
unfolding run
run-IsValid st [] v = v
run-IsValid st (c ∷ cs) v = run-IsValid (step st c) cs (step-IsValid st c v)

-- Whatever is put, deleted, enabled or configured, with whatever arguments and in whatever order, on
-- a store that `edge_state_create_with_config` made with every allocation succeeding: there are at
-- most 32 namespaces and no two of one name, and in each of them the count is the number of used
-- entries, no two of these have one key, and every value fits its buffer.
pub run-create_with_config-IsValid :
    (cfg : Option StoreConfig) {st : Store} (cs : List Call)
    → create_with_config cfg (λ i. true) ≡ some st
    → IsValid (run st cs)
run-create_with_config-IsValid cfg {st} cs made =
    let c = create_with_config-Created cfg in
    run-IsValid st cs (subst IsValid (some_inj (sym c.made ∙ made)) c.content.valid)
