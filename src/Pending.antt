-- ===== src/Pending.antt =====
-- src/core/pending_table.c and include/edge_pending.h: the inbound connections that are parked
-- while an upstream request is in flight. A pointer to an entry is its slot's index; a plugin
-- pointer is a number, 0 for NULL; a status 0 is `true` and -1 is `false`.
pub mod Scan
pub mod Invariant
pub mod Lookup
pub mod Release
pub mod Run
mod Tests
use edgehost.Prelude.{
  ℕ, ◌+◌, ◌-◌, Bool, true, false, not, ◌&&◌, ◌||◌, List, [], ◌∷◌, Option, none, some, ltb, leb,
  ◌==◌, if◌then◌else◌, get_elem?, set, replicate,
}
use edgehost.Prelude.Table.{find_index}
use edgehost.Prelude.Text.{Bytes, bounded, is_empty}

abbrev pub default_cap : ℕ
default_cap = 256

abbrev pub sub_max : ℕ
sub_max = 64

pub record Entry : Type 0 where
  pub used : Bool
  pub inbound_slot : ℕ
  pub outbound_id : ℕ
  pub plugin : ℕ
  pub user_tag : ℕ
  pub started_ms : ℕ
  pub timeout_ms : ℕ
  pub principal_sub : Bytes

-- An entry after `memset(e, 0, sizeof(*e))` or `calloc`.
abbrev pub zero_entry : Entry
zero_entry = record {
  used = false;
  inbound_slot = 0;
  outbound_id = 0;
  plugin = 0;
  user_tag = 0;
  started_ms = 0;
  timeout_ms = 0;
  principal_sub = [];
}

pub record Table : Type 0 where
  pub slots : List Entry
  pub cap : ℕ
  pub count : ℕ

-- `mem` says whether the two allocations succeed.
unfoldable pub create : ℕ → Bool → Option Table
create capacity mem =
    let n = if capacity == 0 then default_cap else capacity in
    if mem then some (record { slots = replicate n zero_entry; cap = n; count = 0 }) else none

count : Table → ℕ
count t = t.count

pub capacity : Table → ℕ
capacity t = t.cap

unfoldable pub full : Table → Bool
full t = leb t.cap t.count

-- The arguments of `edge_pending_insert`.
pub record Request : Type 0 where
  pub inbound_slot : ℕ
  pub outbound_id : ℕ
  pub plugin : ℕ
  pub user_tag : ℕ
  pub timeout_ms : ℕ
  pub started_ms : ℕ
  pub principal_sub : Option Bytes

abbrev pub or_first : Option ℕ → ℕ → Option ℕ
or_first none i = some i
or_first (some j) i = some j

-- The loop of `edge_pending_insert` from slot `i` on, with the `free_slot` found so far. `none` is
-- the early return on a slot that already has the inbound slot or the outbound id.
unfoldable pub scan : ℕ → ℕ → List Entry → ℕ → Option ℕ → Option (Option ℕ)
scan inbound outbound [] i free = some free
scan inbound outbound (e ∷ es) i free =
    let rest = scan inbound outbound es (i + 1) (if e.used then free else or_first free i) in
    if not e.used
    then rest
    else if e.inbound_slot == inbound
    then none
    else if e.outbound_id == outbound
    then none
    else rest

-- `if (principal_sub && principal_sub[0]) snprintf(...)`, into a zeroed field.
unfoldable pub sub_field : Option Bytes → Bytes
sub_field none = []
sub_field (some s) = if is_empty s then [] else bounded sub_max s

unfoldable pub filled : Request → Entry
filled r = record {
  used = true;
  inbound_slot = r.inbound_slot;
  outbound_id = r.outbound_id;
  plugin = r.plugin;
  user_tag = r.user_tag;
  started_ms = r.started_ms;
  timeout_ms = r.timeout_ms;
  principal_sub = sub_field r.principal_sub;
}

-- What follows the loop.
place : Table → Request → Option (Option ℕ) → Bool × Table
place t r none = (false, t)
place t r (some none) = (false, t)
place t r (some (some i)) =
    (true, record t { slots = set t.slots i (filled r); count = t.count + 1 })

unfoldable pub insert : Table → Request → Bool × Table
unfolding place
insert t r =
    if r.plugin == 0 || r.outbound_id == 0
    then (false, t)
    else if leb t.cap t.count
    then (false, t)
    else place t r (scan r.inbound_slot r.outbound_id t.slots 0 none)

abbrev pub has_inbound : ℕ → Entry → Bool
has_inbound s e = e.used && e.inbound_slot == s

abbrev pub has_outbound : ℕ → Entry → Bool
has_outbound id e = e.used && e.outbound_id == id

unfoldable pub find_outbound : Table → ℕ → Option ℕ
find_outbound t id = if id == 0 then none else find_index (has_outbound id) t.slots

unfoldable pub find_inbound : Table → ℕ → Option ℕ
find_inbound t s = find_index (has_inbound s) t.slots

release_entry : Table → ℕ → Entry → Table
release_entry t i e = if not e.used then t else record t {
  slots = set t.slots i zero_entry;
  count = if ltb 0 t.count then t.count - 1 else t.count;
}

-- `edge_pending_release` of the entry in slot `i`; a slot outside the table is no entry.
unfoldable pub release : Table → ℕ → Table
unfolding release_entry
release t i = elim (get_elem? t.slots i) [ none ↦ t | some e ↦ release_entry t i e ]

pub release_outbound : Table → ℕ → Bool × Table
release_outbound t id = elim (find_outbound t id) [
  | none ↦ (false, t)
  | some i ↦ (true, release t i)
]

unfoldable pub release_inbound : Table → ℕ → Bool × Table
release_inbound t s = elim (find_inbound t s) [ none ↦ (false, t) | some i ↦ (true, release t i) ]
