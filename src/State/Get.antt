-- ===== src/State/Get.antt =====
-- What `edge_state_get` returns, copies out and stores in `*out_len`.
use edgehost.Prelude.{
  ℕ, ◌-◌, ◌<◌, ◌≡◌, refl, true, not, ◌&&◌, inl, inr, [], ◌∷◌, ◌++◌, Option, none, some, some_inj,
  arith, Bool-cases, Option-cases, ltb, leb, if◌then◌else◌, length, ap, sym, ◌∙◌,
}
use edgehost.Prelude.Text.{Bytes, str_eq_refl}
use edgehost.State.Check.{key_valid, of_class, key_valid_lem}
use edgehost.State.Namespace.{Ns, store, remove}
use edgehost.State.Namespace
use edgehost.State.Namespace.Invariant.{
  store-IsValid, remove-IsValid, Stored, kept, added, is_full, store-Stored, Removed, missing, gone,
  remove-Removed,
}
use edgehost.State.Namespace.Lookup.{lookup}
use edgehost.State.{Store, ok, not_found, ns_disabled, bad_key, bad_ns, ns_at, put}
use edgehost.State.Invariant.{IsValid, ns_at-IsValid}
use edgehost.State.View.{lookup_in}
use edgehost.State.{Reply, refuse, get, get_found, copy_out}
use edgehost.State.Namespace.{Entry, has_key, find_entry}
use edgehost.State.Namespace.Invariant.{is_malformed, is_missized}
use edgehost.State.Namespace.Lookup.{value_of}
use edgehost.State.Put.{put-PutOutcome, put_code-ok}
use edgehost.State.View.{flag}
use edgehost.Prelude.{lt→ltb, take_of_le, take, length-take, take-take, get_elem?, min}
use edgehost.Prelude.Table.{deref, deref-find_index, find_index, find_index-some, count_if_bound}

-- The copy of a value into a buffer of `cap` bytes: cut to leave room for the NUL that follows it.
abbrev pub copied : Option ℕ → Bytes → Bytes
copied none value = []
copied (some cap) value =
    if ltb 0 cap then take (min (cap - 1) (length value)) value ++ (0 ∷ []) else []

abbrev pub reply_of : Option ℕ → Option Bytes → Reply
reply_of out none = refuse not_found
reply_of out (some value) = record {
  code = ok;
  written = copied out value;
  out_len = some (length value);
}

-- The reply of `edge_state_get`, from what a reader of the store can see.
pub get_reply : Option Ns → Bytes → Option ℕ → Reply
get_reply none key out = refuse bad_ns
get_reply (some n) key out =
    if not n.enabled
    then refuse ns_disabled
    else if not (of_class key)
    then refuse bad_key
    else reply_of out (lookup n key)

-- The entry that holds a key has a value that fits its buffer.
module _ {max : ℕ} {n : Ns} (v : Namespace.Invariant.IsValid max n) (i : ℕ) (e : Entry)
    (at : get_elem? n.entries i ≡ some e) where
  length-value_of : e.used ≡ true → length (value_of e) ≡ e.value_len
  length-value_of u = ground (
    arith,
    length-take e.value_len e.value,
    v.formed,
    v.buffered,
    count_if_bound (is_malformed max) n.entries i at,
    count_if_bound (is_missized max) n.entries i at,
  )

cut_copy :
    (cap len : ℕ) (xs : Bytes)
    → 0 < cap
    → length (take len xs) ≡ len
    → take (if leb cap len then cap - 1 else len) xs
      ≡ take (min (cap - 1) (length (take len xs))) (take len xs)
cut_copy cap len xs h k =
    ap (λ c. take c xs) (ground arith)
    ∙ sym (take-take (min (cap - 1) (length (take len xs))) len xs (omega arith))

copy_out-copied :
    (out : Option ℕ) (e : Entry)
    → length (value_of e) ≡ e.value_len
    → copy_out out e ≡ copied out (value_of e)
unfolding copy_out
copy_out-copied none e h = refl
copy_out-copied (some cap) e h = elim (Bool-cases (ltb 0 cap)) [
  | inl some_room ↦
      rw some_room (ap (λ bs. bs ++ (0 ∷ [])) (cut_copy cap e.value_len e.value (ground arith) h))
  | inr no_room ↦ rw no_room
]

abbrev reply_entry_of : Option ℕ → Option Entry → Reply
reply_entry_of out none = refuse not_found
reply_entry_of out (some e) = record {
  code = ok;
  written = copy_out out e;
  out_len = some e.value_len;
}

get_open :
    (n : Ns) (key : Bytes) (out : Option ℕ)
    → n.enabled ≡ true
    → key_valid key ≡ true
    → get_found n key out ≡ reply_entry_of out (deref n.entries (find_entry n key))
unfolding get_found
get_open n key out on good = ground arith

reply_entry :
    {max : ℕ} (n : Ns) (key : Bytes) (out : Option ℕ)
    → Namespace.Invariant.IsValid max n
    → reply_entry_of out (deref n.entries (find_entry n key)) ≡ reply_of out (lookup n key)
unfolding find_entry
reply_entry n key out v = elim (Option-cases (find_index (has_key key) n.entries)) [
  | inl h ↦ rw (← deref-find_index (has_key key) n.entries, h)
  | inr (i, h) ↦
      let (e, at, hit) = find_index-some (has_key key) n.entries i h in
      let long = length-value_of v i e at (ground arith) in
      rw (← deref-find_index (has_key key) n.entries, h, at)
        (ground (arith, copy_out-copied out e long, long))
]

get_found_lem :
    {max : ℕ} (n : Ns) (key : Bytes) (out : Option ℕ)
    → Namespace.Invariant.IsValid max n
    → get_found n key out ≡ get_reply (some n) key out
unfolding get_found get_reply
get_found_lem n key out v = elim (Bool-cases (n.enabled && key_valid key)) [
  | inr bad ↦ ground (arith, key_valid_lem key)
  | inl good ↦
      get_open n key out (ground arith) (ground arith)
      ∙ reply_entry n key out v
      ∙ ground (arith, key_valid_lem key)
]

-- On a valid store, `edge_state_get` with a name and a key: BAD_NS, NS_DISABLED, BAD_KEY for a key
-- that is not 1 to 127 characters of [a-z0-9_./:-] and NOT_FOUND in that order of the checks, with
-- nothing written; else OK with the value's whole length in `*out_len`, and in an `out` with room the
-- first `out_cap - 1` bytes of the value at most, with a NUL behind them always: a value as long as
-- `out_cap` loses its last byte.
pub get_lem :
    {st : Store} (name key : Bytes) (out : Option ℕ)
    → IsValid st
    → get st (some name) (some key) out ≡ get_reply (ns_at st name) key out
unfolding get get_reply
get_lem {st} name key out v = elim (Option-cases (ns_at st name)) [
  | inl h ↦ ground arith
  | inr (n, h) ↦ ground (arith, get_found_lem n key out (ns_at-IsValid name v h))
]

whole_copy :
    (value : Bytes) (cap : ℕ) → length value < cap → copied (some cap) value ≡ value ++ (0 ∷ [])
whole_copy value cap room =
    rw (lt→ltb 0 cap (omega arith))
      (ap (λ bs. bs ++ (0 ∷ [])) (take_of_le (min (cap - 1) (length value)) value (omega arith)))

get_reply_present :
    (o : Option Ns) (key value : Bytes) (out : Option ℕ)
    → flag o ≡ some true
    → key_valid key ≡ true
    → lookup_in o key ≡ some value
    → get_reply o key out ≡ reply_of out (some value)
unfolding get_reply
get_reply_present none key value out f good h = cc
get_reply_present (some n) key value out f good h =
    rw (some_inj f, sym (key_valid_lem key) ∙ good, h)

-- What `edge_state_put` stored with OK in a valid store, `edge_state_get` gives back: into a buffer
-- with room for the value and its NUL it copies the value and the NUL, and `*out_len` is the
-- value's length.
pub get-put :
    {st : Store} (name key value : Bytes) (cap : ℕ)
    → IsValid st
    → length value < cap
    → (put st (some name) (some key) (some value)).0 ≡ ok
    → get (put st (some name) (some key) (some value)).1 (some name) (some key) (some cap)
      ≡ record { code = ok; written = value ++ (0 ∷ []); out_len = some (length value) }
get-put {st} name key value cap v room stored =
    let p = put-PutOutcome name key value v in
    let open_ns = put_code-ok st (ns_at st name) key value (sym p.code ∙ stored) in
    let there = p.wrote stored name key ∙ rw (str_eq_refl name, str_eq_refl key) in
    get_lem name key (some cap) p.valid
    ∙ get_reply_present _ key value (some cap) (p.flags name ∙ open_ns.0) open_ns.1 there
    ∙ ap (λ bs. record { code = ok; written = bs; out_len = some (length value) })
        (whole_copy value cap room)
