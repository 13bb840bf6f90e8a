-- ===== src/State/Check.antt =====
-- The checks that src/core/state_store.c makes of keys and values.
use edgehost.Prelude.{
  ℕ, ◌-◌, ◌≡◌, refl, arith, Bool, true, false, ◌&&◌, ◌||◌, [], ◌∷◌, ltb, ◌==◌, if◌then◌else◌,
  length,
}
use edgehost.Prelude.Text.{Bytes, text, is_empty, is_lower, is_digit, is_space}

abbrev pub key_max : ℕ
key_max = 128

is_key_char : ℕ → Bool
unfolding is_lower is_digit
is_key_char c =
    is_lower c || is_digit c || c == b'_' || c == b'.' || c == b'/' || c == b':' || c == b'-'

-- The loop over the characters of a key.
all_key_chars : Bytes → Bool
unfolding is_key_char
all_key_chars [] = true
all_key_chars (c ∷ s) = is_key_char c && all_key_chars s

unfoldable pub key_valid : Bytes → Bool
unfolding all_key_chars
key_valid key =
    if is_empty key
    then false
    else if ltb (key_max - 1) (length key)
    then false
    else all_key_chars key

-- The characters of the class [a-z0-9_./:-].
abbrev key_chars : Bytes
key_chars = text "abcdefghijklmnopqrstuvwxyz0123456789_./:-"

any_of : ℕ → Bytes → Bool
any_of c [] = false
any_of c (x ∷ s) = c == x || any_of c s

all_of_class : Bytes → Bool
unfolding any_of
all_of_class [] = true
all_of_class (c ∷ s) = any_of c key_chars && all_of_class s

-- A key as the class says it: 1 to 127 characters of it.
unfoldable pub of_class : Bytes → Bool
unfolding all_of_class
of_class key = ltb 0 (length key) && ltb (length key) key_max && all_of_class key

is_key_char_lem : (c : ℕ) → is_key_char c ≡ any_of c key_chars
unfolding is_key_char any_of is_lower is_digit
is_key_char_lem c = ground arith

all_key_chars_lem : (s : Bytes) → all_key_chars s ≡ all_of_class s
unfolding all_key_chars all_of_class
all_key_chars_lem [] = refl
all_key_chars_lem (c ∷ s) = rw (is_key_char_lem c, all_key_chars_lem s) refl

pub key_valid_lem : (key : Bytes) → key_valid key ≡ of_class key
unfolding key_valid of_class
key_valid_lem [] = refl
key_valid_lem (c ∷ s) = ground (arith, all_key_chars_lem (c ∷ s))

-- The loop over leading spaces.
skip_spaces : Bytes → Bytes
unfolding is_space
skip_spaces [] = []
skip_spaces (c ∷ s) = let rest = skip_spaces s in if is_space c then rest else c ∷ s

is_json_start : ℕ → Bool
unfolding is_digit
is_json_start c =
    c == b'{'
    || c == b'['
    || c == b'"'
    || c == b'-'
    || is_digit c
    || c == b't'
    || c == b'f'
    || c == b'n'

starts_json : Bytes → Bool
unfolding is_json_start
starts_json [] = false
starts_json (c ∷ s) = is_json_start c

-- `edge_state_json_ok`; the list is the `len` bytes at `value`.
unfoldable pub json_ok : Bytes → Bool
unfolding skip_spaces starts_json
json_ok value = starts_json (skip_spaces value)
