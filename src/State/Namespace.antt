-- ===== src/State/Namespace.antt =====
-- One namespace of src/core/state_store.c: the entry table and what the operations do to it once
-- the namespace is found and the arguments are checked. A pointer to an entry is its index.
pub mod Invariant
pub mod Lookup
pub mod Listing
use edgehost.Prelude.{
  ℕ, ◌+◌, ◌-◌, Bool, true, false, not, ◌&&◌, List, [], ◌∷◌, ◌++◌, Option, none, some, ltb, ◌==◌,
  if◌then◌else◌, length, get_elem?, set, drop,
}
use edgehost.Prelude.Table.{find_index}
use edgehost.Prelude.Text.{Bytes, bounded, str_eq, starts_with}
use edgehost.State.Check.{key_max}

-- `value` is the whole buffer of `max_value + 1` bytes.
pub record Entry : Type 0 where
  pub used : Bool
  pub key : Bytes
  pub value : Bytes
  pub value_len : ℕ

pub record Ns : Type 0 where
  pub name : Bytes
  pub enabled : Bool
  pub registered : Bool
  pub entries : List Entry
  pub capacity : ℕ
  pub count : ℕ

abbrev pub has_key : Bytes → Entry → Bool
has_key key e = e.used && str_eq e.key key

abbrev pub is_free : Entry → Bool
is_free e = not e.used

unfoldable pub find_entry : Ns → Bytes → Option ℕ
find_entry n key = find_index (has_key key) n.entries

unfoldable pub find_free : Ns → Option ℕ
find_free n = find_index is_free n.entries

-- `memcpy(e->value, value, value_len); e->value[value_len] = '\0'; e->value_len = value_len;`
abbrev pub write_value : Bytes → Entry → Entry
write_value value e = record e {
  value = value ++ (0 ∷ drop (length value + 1) e.value);
  value_len = length value;
}

-- `snprintf(e->key, sizeof(e->key), "%s", key); e->used = 1;`
abbrev pub write_key : Bytes → Entry → Entry
write_key key e = record e { used = true; key = bounded key_max key }

update_entry : (Entry → Entry) → List Entry → ℕ → List Entry
update_entry f es i = elim (get_elem? es i) [ none ↦ es | some e ↦ set es i (f e) ]

-- What `edge_state_put` does after its checks; `none` is EDGE_STATE_NS_FULL.
unfoldable pub store : Ns → Bytes → Bytes → Option Ns
unfolding update_entry
store n key value = elim (find_entry n key) [
  | some i ↦ some (record n { entries = update_entry (write_value value) n.entries i })
  | none ↦ elim (find_free n) [
    | none ↦ none
    | some i ↦ some (record n {
      entries = update_entry (λ e. write_value value (write_key key e)) n.entries i;
      count = n.count + 1;
    })
  ]
]

-- `e->used = 0; e->value_len = 0; e->key[0] = '\0';`
abbrev pub clear_entry : Entry → Entry
clear_entry e = record e { used = false; key = []; value_len = 0 }

-- What `edge_state_delete` does after its checks; `none` is EDGE_STATE_NOT_FOUND.
unfoldable pub remove : Ns → Bytes → Option Ns
unfolding update_entry
remove n key = elim (find_entry n key) [
  | none ↦ none
  | some i ↦ some (record n {
    entries = update_entry clear_entry n.entries i;
    count = if ltb 0 n.count then n.count - 1 else n.count;
  })
]

-- A prefix that is NULL or empty passes every key.
abbrev pub passes_prefix : Option Bytes → Bytes → Bool
passes_prefix none key = true
passes_prefix (some p) key = starts_with p key

abbrev pub is_listed : Option Bytes → Entry → Bool
is_listed p e = e.used && passes_prefix p e.key

-- The loop of `edge_state_list`, with room for `room` more keys.
pub list_from : Option Bytes → List Entry → ℕ → List Bytes
list_from p [] room = []
list_from p (e ∷ es) room =
    let rest = list_from p es (if is_listed p e then room - 1 else room) in
    if room == 0 then [] else if is_listed p e then bounded key_max e.key ∷ rest else rest
