-- ===== src/Auth/Login.antt =====
-- The string fields of the small JSON texts: `edge_auth_parse_login_password` and
-- `parse_json_string_field`. `strstr` and `strchr` give the text from the match on.
use edgehost.Prelude.{
  ℕ, zero, suc, ◌+◌, ◌-◌, ◌/◌, ◌%◌, ◌≤◌, ◌<◌, ◌≡◌, refl, arith, Bool, true, false, ◌||◌, [], ◌∷◌,
  ◌++◌, Option, none, some, ◌==◌, leb, ltb, if◌then◌else◌, length, drop, All, ap, ◌∙◌, Bool-cases,
  inl, inr,
}
use edgehost.Prelude.Text.{Bytes, text, is_empty, starts_with, bounded}

-- `strstr(s, key)` for a key that is not empty
unfoldable pub strstr : Bytes → Bytes → Option Bytes
strstr key [] = none
strstr key (c ∷ s) =
    let rest = strstr key s in if starts_with key (c ∷ s) then some (c ∷ s) else rest

unfoldable pub strchr : ℕ → Bytes → Option Bytes
strchr ch [] = none
strchr ch (c ∷ s) = let rest = strchr ch s in if c == ch then some (c ∷ s) else rest

-- The text that a buffer holds.
unfoldable pub until_nul : Bytes → Bytes
until_nul [] = []
until_nul (c ∷ s) = let rest = until_nul s in if c == 0 then [] else c ∷ rest

abbrev pub quote : ℕ
quote = b'"'

abbrev pub backslash : ℕ
backslash = 92

abbrev pub prepend : ℕ → Bool × Bytes → Bool × Bytes
prepend c (done, s) = (done, c ∷ s)

-- The copying loop, with room for `room` more bytes before the NUL: whether it ended at a quote, and
-- what it wrote. A backslash that is not the last byte is passed over.
unfoldable pub copy_string : ℕ → Bytes → Bool × Bytes
copy_string room [] = (false, [])
copy_string zero (c ∷ p) = (c == quote, [])
copy_string (suc room) (c ∷ []) = if c == quote then (true, []) else (false, c ∷ [])
copy_string (suc room) (c ∷ d ∷ p) =
    let plain = prepend c (copy_string room (d ∷ p)) in
    let escaped = prepend d (copy_string room p) in
    if c == quote then (true, []) else if c == backslash then escaped else plain

-- What follows the key: the first quote, and the string behind it. `none` leaves `out` as it was.
unfoldable pub string_after : ℕ → Option Bytes → Bool × Option Bytes
unfolding copy_string strchr
string_after out_sz none = (false, none)
string_after out_sz (some p) = elim (strchr quote p) [
  | none ↦ (false, none)
  | some q ↦ let (done, s) = copy_string (out_sz - 1) (drop 1 q) in (done, some s)
]

abbrev pub password_key : Bytes
password_key = text "\"password\""

abbrev pub past : ℕ → Option Bytes → Option Bytes
past n none = none
past n (some p) = some (drop n p)

-- `edge_auth_parse_login_password`; the list is the `body_len` bytes at `body`.
unfoldable pub parse_login_password : Option Bytes → ℕ → Bool × Option Bytes
unfolding strstr string_after until_nul
parse_login_password none out_sz = (false, none)
parse_login_password (some body) out_sz =
    if out_sz == 0 || is_empty body || leb 512 (length body)
    then (false, none)
    else string_after out_sz (past 10 (strstr password_key (until_nul body)))

-- `parse_json_string_field`
unfoldable pub string_field : Bytes → Bytes → ℕ → Bool × Option Bytes
unfolding strstr string_after
string_field json field out_sz =
    let key = bounded 80 (quote ∷ (field ++ (quote ∷ []))) in
    string_after out_sz (past (length key) (strstr key json))

-- A digit of `\u00XX`.
abbrev hex_digit : ℕ → ℕ
hex_digit d = if ltb d 10 then d + b'0' else d - 10 + b'a'

-- What `JSON.stringify` writes for a control character.
escaped_control : ℕ → Bytes
escaped_control c =
    if c == 8
    then text "\\b"
    else if c == 9
    then text "\\t"
    else if c == 10
    then text "\\n"
    else if c == 12
    then text "\\f"
    else if c == 13
    then text "\\r"
    else text "\\u00" ++ (hex_digit (c / 16) ∷ hex_digit (c % 16) ∷ [])

-- The bytes of a string as `JSON.stringify` quotes them: quotes, backslashes and control characters
-- are escaped, everything else is written as it is.
unfoldable pub escaped : Bytes → Bytes
unfolding escaped_control
escaped [] = []
escaped (c ∷ s) =
    let rest = escaped s in
    if c == quote || c == backslash
    then backslash ∷ c ∷ rest
    else if ltb c 32
    then escaped_control c ++ rest
    else c ∷ rest

-- A text without control characters.
abbrev pub IsPrintable : Bytes → Type 0
IsPrintable s = All (λ c. ltb c 32 ≡ false) s

copy_plain :
    (room c : ℕ) (t : Bytes)
    → is_empty t ≡ false
    → (c == quote || c == backslash) ≡ false
    → copy_string (suc room) (c ∷ t) ≡ prepend c (copy_string room t)
unfolding copy_string
copy_plain room c [] h e = cc
copy_plain room c (d ∷ t) h e = ground arith

not_empty : (s rest : Bytes) → is_empty (s ++ (quote ∷ rest)) ≡ false
not_empty [] rest = refl
not_empty (c ∷ s) rest = refl

-- A text with nothing to escape comes back.
pub copy_string-plain :
    (room : ℕ) (s rest : Bytes)
    → All (λ c. (c == quote || c == backslash) ≡ false) s
    → length s ≤ room
    → copy_string room (s ++ (quote ∷ rest)) ≡ (true, s)
unfolding copy_string
copy_string-plain zero [] rest plain le = refl
copy_string-plain (suc room) [] [] plain le = refl
copy_string-plain (suc room) [] (d ∷ rest) plain le = refl
copy_string-plain zero (c ∷ s) rest plain le = absurd (omega arith)
copy_string-plain (suc room) (c ∷ s) rest plain le =
    copy_plain room c (s ++ (quote ∷ rest)) (not_empty s rest) plain.0
    ∙ ap (prepend c) (copy_string-plain room s rest plain.1 (omega arith))

-- What was escaped comes back, quotes and backslashes too.
copy_string-escaped :
    (room : ℕ) (s rest : Bytes)
    → IsPrintable s
    → length s ≤ room
    → copy_string room (escaped s ++ (quote ∷ rest)) ≡ (true, s)
unfolding copy_string escaped
copy_string-escaped zero [] rest printable le = refl
copy_string-escaped (suc room) [] [] printable le = refl
copy_string-escaped (suc room) [] (d ∷ rest) printable le = refl
copy_string-escaped zero (c ∷ s) rest printable le = absurd (omega arith)
copy_string-escaped (suc room) (c ∷ s) rest printable le =
    let back = ap (prepend c) (copy_string-escaped room s rest printable.1 (omega arith)) in
    elim (Bool-cases (c == quote || c == backslash)) [
      | inl special ↦ rw special back
      | inr plain ↦
          rw (plain, printable.0)
            (copy_plain room c (escaped s ++ (quote ∷ rest)) (not_empty (escaped s) rest) plain
              ∙ back)
    ]

-- The body that the login page makes of a password, `JSON.stringify({ password: pw })`.
abbrev pub login_body : Bytes → Bytes
login_body password = text "{\"password\":\"" ++ (escaped password ++ text "\"}")

pub until_nul_id : (s : Bytes) → All (λ c. (c == 0) ≡ false) s → until_nul s ≡ s
unfolding until_nul
until_nul_id [] h = refl
until_nul_id (c ∷ s) h = rw (h.0, until_nul_id s h.1)

All-escaped :
    (s rest : Bytes)
    → IsPrintable s
    → All (λ c. (c == 0) ≡ false) rest
    → All (λ c. (c == 0) ≡ false) (escaped s ++ rest)
unfolding escaped
All-escaped [] rest h hr = hr
All-escaped (c ∷ s) rest h hr =
    let nonzero : (c == 0) ≡ false = ground (arith, h.0) in
    elim (Bool-cases (c == quote || c == backslash)) [
      | inl special ↦ rw special (refl, (nonzero, All-escaped s rest h.1 hr))
      | inr plain ↦ rw (plain, h.0) (nonzero, All-escaped s rest h.1 hr)
    ]

-- From the body that `JSON.stringify` makes of a password without control characters,
-- `edge_auth_parse_login_password` gets the password back, quotes and backslashes in it too, when the
-- body has fewer than 512 bytes and the password fits `out` with its NUL.
pub parse_login_password-body :
    (password : Bytes) (out_sz : ℕ)
    → IsPrintable password
    → length (login_body password) < 512
    → length password < out_sz
    → parse_login_password (some (login_body password)) out_sz ≡ (true, some password)
unfolding parse_login_password string_after strstr strchr starts_with
parse_login_password-body password out_sz printable short fits =
    let wide : (out_sz == 0) ≡ false = ground (arith, fits) in
    let small : leb 512 (length (login_body password)) ≡ false = ground (arith, short) in
    rw (
      wide,
      small,
      until_nul_id (escaped password ++ text "\"}")
          (All-escaped password (text "\"}") printable (refl, (refl, tt))),
      copy_string-escaped (out_sz - 1) password (text "}") printable (omega arith),
    )
