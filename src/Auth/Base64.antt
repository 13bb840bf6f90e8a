-- ===== src/Auth/Base64.antt =====
-- The base64 of src/core/auth_rbac.c: `b64_encode`, `b64_decode_char` and `b64_decode`. Shifts and
-- masks of bytes are written as quotients and remainders.
pub mod RoundTrip
pub mod Size
use edgehost.Prelude.{
  ℕ, ◌+◌, ◌-◌, ◌*◌, ◌/◌, ◌%◌, ◌^◌, Bool, ◌&&◌, ◌||◌, [], ◌∷◌, ◌++◌, Option, none, some, ltb, leb,
  ◌==◌, if◌then◌else◌, length, get_or, replicate,
}
use edgehost.Prelude.Text.{Bytes, text, is_empty}

abbrev pub padding : ℕ
padding = b'='

-- `b64`, the table of the 64 characters.
abbrev pub alphabet : Bytes
alphabet = text "ABCDEFGHIJKLMNOPQRSTUVWXYZabcdefghijklmnopqrstuvwxyz0123456789+/"

-- `b64[(n >> shift) & 63]`
abbrev pub sextet : ℕ → ℕ → ℕ
sextet n shift = get_or alphabet (n / 2 ^ shift % 64) 0

-- The standard encoding, three bytes at a time.
unfoldable pub encode_groups : Bytes → Bytes
encode_groups [] = []
encode_groups (a ∷ []) = let n = a * 65536 in sextet n 18 ∷ sextet n 12 ∷ padding ∷ padding ∷ []
encode_groups (a ∷ b ∷ []) =
    let n = a * 65536 + b * 256 in sextet n 18 ∷ sextet n 12 ∷ sextet n 6 ∷ padding ∷ []
encode_groups (a ∷ b ∷ c ∷ s) =
    let n = a * 65536 + b * 256 + c in
    sextet n 18 ∷ sextet n 12 ∷ sextet n 6 ∷ sextet n 0 ∷ encode_groups s

-- The two characters that are replaced when `url` is set.
unfoldable pub url_char : ℕ → ℕ
url_char c = if c == b'+' then b'-' else if c == b'/' then b'_' else c

unfoldable pub url_chars : Bytes → Bytes
url_chars [] = []
url_chars (c ∷ s) = url_char c ∷ url_chars s

-- `while (o > 0 && out[o - 1] == '=') out[--o] = '\0';`
unfoldable pub strip_padding : Bytes → Bytes
strip_padding [] = []
strip_padding (c ∷ s) =
    let rest = strip_padding s in if is_empty rest && c == padding then [] else c ∷ rest

-- `none` is -1; else the text in `out`.
unfoldable pub b64_encode : Bytes → ℕ → Bool → Option Bytes
unfolding encode_groups url_chars strip_padding
b64_encode input out_sz url =
    if ltb out_sz ((length input + 2) / 3 * 4 + 1)
    then none
    else some (if url then strip_padding (url_chars (encode_groups input)) else encode_groups input)

unfoldable pub b64_decode_char : ℕ → Option ℕ
b64_decode_char c =
    if leb b'A' c && leb c b'Z'
    then some (c - b'A')
    else if leb b'a' c && leb c b'z'
    then some (c - b'a' + 26)
    else if leb b'0' c && leb c b'9'
    then some (c - b'0' + 52)
    else if c == b'+' || c == b'-'
    then some 62
    else if c == b'/' || c == b'_'
    then some 63
    else none

abbrev pub emit : Bool → ℕ → Option Bytes → Option Bytes
emit on byte none = none
emit on byte (some s) = some (if on then byte ∷ s else s)

-- The loop. `bits` is `valb + 8`; `val` is the 32 bits of the `int`, which wraps where the code's
-- would overflow; `room` is what is left of `out`. `b64_decode_char` refuses `=`, so that the test for
-- it stands behind the call.
unfoldable pub decode_from : Bytes → ℕ → ℕ → ℕ → Option Bytes
decode_from [] val bits room = some []
decode_from (c ∷ src) val bits room = elim (b64_decode_char c) [
  | none ↦ if c == padding then some [] else none
  | some d ↦
      let v = (val * 64 + d) % 2 ^ 32 in
      let full = leb 8 (bits + 6) in
      let rest =
        decode_from src v (if full then bits + 6 - 8 else bits + 6)
          (if full then room - 1 else room) in
      if full && room == 0 then none else emit full (v / 2 ^ (bits + 6 - 8) % 256) rest
]

-- The padding that `tmp` is filled up with.
abbrev pub padded : Bytes → Bytes
padded src = src ++ replicate ((4 - length src % 4) % 4) padding

-- `none` is -1; else the bytes in `out`, whose number is `*out_len`.
unfoldable pub b64_decode : Bytes → ℕ → Option Bytes
unfolding decode_from
b64_decode src out_sz = if leb 508 (length src) then none else decode_from (padded src) 0 0 out_sz
