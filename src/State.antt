-- ===== src/State.antt =====
-- src/core/state_store.c and include/edge_state.h: the store of namespaces. A store is the array
-- `ns[0..n_ns)`, so `n_ns` is the list's length; a pointer to a namespace is its index. A pointer
-- argument that may be NULL is an option; the store itself is never NULL here. `mem` says which
-- allocations succeed.
pub mod Check
pub mod Namespace
pub mod Invariant
pub mod Register
pub mod View
pub mod Put
pub mod Get
pub mod Delete
pub mod Keys
pub mod Create
pub mod Flags
pub mod Run
mod Tests
use edgehost.Prelude.{
  ℕ, ◌+◌, ◌-◌, Bool, true, false, not, ◌&&◌, ◌||◌, List, [], ◌∷◌, ◌++◌, Option, none, some, ltb,
  leb, ◌==◌, if◌then◌else◌, length, set, replicate, take,
}
use edgehost.Prelude.Table.{find_index, deref}
use edgehost.Prelude.Text.{Bytes, text, bounded, str_eq, is_empty}
use edgehost.Config.{Config}
use edgehost.State.Check.{key_valid, json_ok}
use edgehost.State.Namespace.{Entry, Ns, find_entry, list_from}
use edgehost.State.Namespace

abbrev pub ns_max : ℕ
ns_max = 32

abbrev pub value_max : ℕ
value_max = 65536

abbrev pub list_cap : ℕ
list_cap = 1000

pub data Err : Type 0 where
  ok not_found denied too_large ns_full ns_disabled bad_key bad_json bad_ns nomem : Err

pub err_name : Err → Bytes
err_name ok = text "OK"
err_name not_found = text "NOT_FOUND"
err_name denied = text "DENIED"
err_name too_large = text "TOO_LARGE"
err_name ns_full = text "NS_FULL"
err_name ns_disabled = text "NS_DISABLED"
err_name bad_key = text "BAD_KEY"
err_name bad_json = text "BAD_JSON"
err_name bad_ns = text "BAD_NS"
err_name nomem = text "NOMEM"

pub record StoreConfig : Type 0 where
  pub max_keys_per_ns : ℕ
  pub max_value_bytes : ℕ

abbrev pub default_config : StoreConfig
default_config = record { max_keys_per_ns = 1024; max_value_bytes = 4096 }

pub record Store : Type 0 where
  pub ns : List Ns
  pub max_keys : ℕ
  pub max_value : ℕ

abbrev pub is_named : Bytes → Ns → Bool
is_named name n = n.registered && str_eq n.name name

pub find_ns : Store → Bytes → Option ℕ
find_ns st name = find_index (is_named name) st.ns

-- What the pointer that `find_ns` returns points to.
abbrev pub ns_at : Store → Bytes → Option Ns
ns_at st name = deref st.ns (find_ns st name)

-- A write through a pointer into the array.
abbrev pub write_ns : Store → Bytes → Ns → Store
write_ns st name n = elim (find_ns st name) [
  | none ↦ st
  | some i ↦ record st { ns = set st.ns i n }
]

-- A slot after `calloc`, with the buffer that is allocated for its value.
abbrev pub empty_entry : ℕ → Entry
empty_entry max = record { used = false; key = []; value = replicate (max + 1) 0; value_len = 0 }

abbrev pub new_ns : Store → Bytes → Bool → Ns
new_ns st name on = record {
  name = bounded 64 name;
  enabled = on;
  registered = true;
  entries = replicate st.max_keys (empty_entry st.max_value);
  capacity = st.max_keys;
  count = 0;
}

-- `register_ns`; the Boolean result is `true` for 0 and `false` for -1.
pub register : Store → Bytes → Bool → Bool → Bool × Store
register st name on mem =
    if is_empty name || leb 64 (length name) then (false, st) else elim (ns_at st name) [
      | some n ↦ (true, write_ns st name (record n { enabled = on }))
      | none ↦
          if leb ns_max (length st.ns)
          then (false, st)
          else if mem
          then (true, record st { ns = st.ns ++ (new_ns st name on ∷ []) })
          else (false, st)
    ]

-- The sizes that `edge_state_create_with_config` settles on.
pub effective_config : Option StoreConfig → StoreConfig
effective_config none = default_config
effective_config (some c) = record {
  max_keys_per_ns =
      if ltb 0 c.max_keys_per_ns then c.max_keys_per_ns else default_config.max_keys_per_ns;
  max_value_bytes =
      if ltb 0 c.max_value_bytes
      then (if ltb value_max c.max_value_bytes then value_max else c.max_value_bytes)
      else default_config.max_value_bytes;
}

-- The four registrations whose result is ignored.
register_hooks : Store → (ℕ → Bool) → Store
register_hooks st mem =
    let st1 = (register st (text "net.pon") false (mem 3)).1 in
    let st2 = (register st1 (text "net.home") false (mem 4)).1 in
    let st3 = (register st2 (text "electric") false (mem 5)).1 in
    (register st3 (text "inventory") false (mem 6)).1

pub create_with_config : Option StoreConfig → (ℕ → Bool) → Option Store
unfolding register_hooks
create_with_config cfg mem =
    let c = effective_config cfg in
    let st : Store = record {
      ns = [];
      max_keys = c.max_keys_per_ns;
      max_value = c.max_value_bytes;
    } in
    let (ok1, st1) = register st (text "net.core") true (mem 1) in
    let (ok2, st2) = register st1 (text "map.dynamic") true (mem 2) in
    if not (mem 0) then none else if ok1 && ok2 then some (register_hooks st2 mem) else none

pub create : (ℕ → Bool) → Option Store
create mem = create_with_config (some default_config) mem

pub set_enabled : Store → Option Bytes → Bool → Bool → Bool × Store
set_enabled st none on mem = (false, st)
set_enabled st (some name) on mem = elim (ns_at st name) [
  | none ↦ register st name on mem
  | some n ↦ (true, write_ns st name (record n { enabled = on }))
]

-- `edge_state_apply_config`. The `mem` argument is as for `create`; a NULL config is `none`.
pub apply_config : Store → Option Config → (ℕ → Bool) → Store
apply_config st none mem = st
apply_config st (some c) mem =
    let st1 = (set_enabled st (some (text "net.core")) c.state_net_core_enabled (mem 1)).1 in
    let st2 = (set_enabled st1 (some (text "map.dynamic")) c.state_map_dynamic_enabled (mem 2)).1 in
    let st3 = (set_enabled st2 (some (text "net.pon")) c.state_net_pon_enabled (mem 3)).1 in
    let st4 = (set_enabled st3 (some (text "net.home")) c.state_net_home_enabled (mem 4)).1 in
    let st5 = (set_enabled st4 (some (text "electric")) c.state_electric_enabled (mem 5)).1 in
    (set_enabled st5 (some (text "inventory")) c.state_inventory_enabled (mem 6)).1

pub enabled : Store → Option Bytes → Bool
enabled st none = false
enabled st (some name) = elim (ns_at st name) [ none ↦ false | some n ↦ n.enabled ]

-- The part of `edge_state_put` that follows the checks.
put_checked : Store → Bytes → Ns → Bytes → Bytes → Err × Store
put_checked st name n key value = elim (Namespace.store n key value) [
  | none ↦ (ns_full, st)
  | some m ↦ (ok, write_ns st name m)
]

put_found : Store → Bytes → Ns → Bytes → Bytes → Err × Store
unfolding put_checked
put_found st name n key value =
    if not n.enabled
    then (ns_disabled, st)
    else if not (key_valid key)
    then (bad_key, st)
    else if ltb st.max_value (length value)
    then (too_large, st)
    else if not (json_ok value)
    then (bad_json, st)
    else put_checked st name n key value

-- `edge_state_put`; `value` is the `value_len` bytes at the pointer.
pub put : Store → Option Bytes → Option Bytes → Option Bytes → Err × Store
unfolding put_found
put st (some name) (some key) (some value) = elim (ns_at st name) [
  | none ↦ (bad_ns, st)
  | some n ↦ put_found st name n key value
]
put st name key value = (bad_ns, st)

-- What `edge_state_get` returns: the code, the bytes written to `out` and the length stored in
-- `*out_len`.
pub record Reply : Type 0 where
  pub code : Err
  pub written : Bytes
  pub out_len : Option ℕ

abbrev pub refuse : Err → Reply
refuse e = record { code = e; written = []; out_len = none }

-- The copy into `out`, which has room for `cap` bytes; a NULL `out` is `none`.
copy_out : Option ℕ → Entry → Bytes
copy_out none e = []
copy_out (some cap) e =
    if ltb 0 cap
    then take (if leb cap e.value_len then cap - 1 else e.value_len) e.value ++ (0 ∷ [])
    else []

get_found : Ns → Bytes → Option ℕ → Reply
unfolding copy_out
get_found n key out =
    if not n.enabled
    then refuse ns_disabled
    else if not (key_valid key)
    then refuse bad_key
    else elim (deref n.entries (find_entry n key)) [
      | none ↦ refuse not_found
      | some e ↦ record { code = ok; written = copy_out out e; out_len = some e.value_len }
    ]

pub get : Store → Option Bytes → Option Bytes → Option ℕ → Reply
unfolding get_found
get st (some name) (some key) out = elim (ns_at st name) [
  | none ↦ refuse bad_ns
  | some n ↦ get_found n key out
]
get st name key out = refuse bad_ns

delete_found : Store → Bytes → Ns → Bytes → Err × Store
delete_found st name n key =
    if not n.enabled then (ns_disabled, st) else elim (Namespace.remove n key) [
      | none ↦ (not_found, st)
      | some m ↦ (ok, write_ns st name m)
    ]

pub delete : Store → Option Bytes → Option Bytes → Err × Store
unfolding delete_found
delete st (some name) (some key) = elim (ns_at st name) [
  | none ↦ (bad_ns, st)
  | some n ↦ delete_found st name n key
]
delete st name key = (bad_ns, st)

-- `edge_state_list`; `keys` is the room in the array, `max_keys`, and `none` where the array is NULL.
-- `none` is the result -1; else the keys that are written, in order.
pub list : Store → Option Bytes → Option Bytes → Option ℕ → Option (List Bytes)
list st (some name) prefix (some max_keys) = elim (ns_at st name) [
  | none ↦ none
  | some n ↦
      if max_keys == 0 || not n.enabled
      then none
      else some (list_from prefix n.entries (if ltb list_cap max_keys then list_cap else max_keys))
]
list st name prefix keys = none

pub count : Store → Option Bytes → ℕ
count st none = 0
count st (some name) = elim (ns_at st name) [ none ↦ 0 | some n ↦ n.count ]
