-- ===== src/Auth/Session.antt =====
-- The session cookie of src/core/auth_rbac.c: `edge_auth_session_issue` and
-- `edge_auth_session_verify`. `clock` is what `time(NULL)` returns.
pub mod Roles
pub mod Fields
pub mod Mask
pub mod Array
pub mod Payload
pub mod Plain
pub mod Issued
pub mod RoundTrip
pub mod Verify
use Prim.Native.Nat.{bit_or}
use edgehost.Prelude.{
  ℕ, ◌+◌, ◌-◌, Bool, true, false, not, ◌&&◌, ◌||◌, List, [], ◌∷◌, ◌++◌, Option, none, some, ltb,
  leb, ◌==◌, if◌then◌else◌, length, drop,
}
use edgehost.Prelude.Int.{ℤ, pos, is_positive, reaches}
use edgehost.Prelude.Text.{Bytes, text, is_empty, bounded, decimal}
use edgehost.Auth.{
  Context, Principal, zero_principal, employee, employee_admin, cpe, customer, service_openai,
  ingest, role_has,
}
use edgehost.Auth.Base64.{b64_encode, b64_decode}
use edgehost.Auth.Hmac.{hmac_sha256, ct_eq}
use edgehost.Auth.Login.{quote, strstr, strchr, until_nul, past, string_field}
use edgehost.Auth.Number.{strtoll}

-- `edge_auth_now_sec`
abbrev pub now_sec : Context → ℕ → ℕ
now_sec ctx clock = if ltb 0 ctx.now_sec_override then ctx.now_sec_override else clock

abbrev pub quoted : Bytes → Bytes
quoted s = quote ∷ (s ++ (quote ∷ []))

-- The uses of the macro `ADD`, in their order.
abbrev pub role_names : List (ℕ × Bytes)
role_names =
    (employee, text "employee")
    ∷ (employee_admin, text "employee_admin")
    ∷ (cpe, text "cpe")
    ∷ (customer, text "customer")
    ∷ (service_openai, text "service_openai")
    ∷ (ingest, text "ingest")
    ∷ []

-- `ADD` for each role of a list, with what `tmp` holds so far.
unfoldable pub add_roles : ℕ → List (ℕ × Bytes) → Bytes → Bool → Option Bytes
add_roles roles [] tmp first = some tmp
add_roles roles ((bit, name) ∷ l) tmp first =
    let piece = (if first then [] else (b',' ∷ [])) ++ quoted name in
    let has = role_has roles bit in
    let more =
      add_roles roles l (if has then tmp ++ piece else tmp) (if has then false else first) in
    if has && leb (128 - length tmp) (length piece) then none else more

abbrev pub close_array : ℕ → Option Bytes → Option Bytes
close_array out_sz none = none
close_array out_sz (some tmp) =
    if ltb 128 (length tmp + 2) || ltb out_sz (length tmp + 2)
    then none
    else some (tmp ++ (b']' ∷ []))

-- `roles_to_json_array`; `none` is -1.
unfoldable pub roles_to_json_array : ℕ → ℕ → Option Bytes
roles_to_json_array roles out_sz = close_array out_sz (add_roles roles role_names (b'[' ∷ []) true)

-- The text from a `[` to the first `]` after it, both included.
unfoldable pub to_bracket : Bytes → Option Bytes
to_bracket [] = none
to_bracket (c ∷ s) = elim (to_bracket s) [
  | none ↦ if c == b']' then some (c ∷ []) else none
  | some t ↦ if c == b']' then some (c ∷ []) else some (c ∷ t)
]

abbrev pub found : Option Bytes → Bool
found none = false
found (some t) = true

abbrev pub occurs : Bytes → Bytes → Bool
occurs key s = found (strstr key s)

abbrev pub add_if : Bool → ℕ → ℕ → ℕ
add_if has bit roles = if has then bit_or roles bit else roles

-- The roles whose quoted names stand in `buf`.
unfoldable pub roles_in : Bytes → ℕ
roles_in buf = add_if (occurs (quoted (text "ingest")) buf) ingest (
    add_if (occurs (quoted (text "service_openai")) buf) service_openai (
      add_if (occurs (quoted (text "customer")) buf) customer (
        add_if (occurs (quoted (text "cpe")) buf) cpe (
          add_if (occurs (quoted (text "employee")) buf) employee
            (add_if (occurs (quoted (text "employee_admin")) buf) employee_admin 0)))))

abbrev pub array_roles : Option Bytes → ℕ
array_roles none = 0
array_roles (some buf) = if ltb 128 (length buf) then 0 else roles_in buf

abbrev pub bracket_after : Option Bytes → Option Bytes
bracket_after none = none
bracket_after (some p) = strchr b'[' p

abbrev pub close_after : Option Bytes → Option Bytes
close_after none = none
close_after (some p) = to_bracket p

-- `parse_roles_array`
unfoldable pub parse_roles_array : Bytes → ℕ
unfolding to_bracket roles_in
parse_roles_array json =
    array_roles (close_after (bracket_after (strstr (quoted (text "roles")) json)))

unfoldable pub skip_blanks : Bytes → Bytes
skip_blanks [] = []
skip_blanks (c ∷ p) = let rest = skip_blanks p in if c == b' ' || c == 9 then rest else c ∷ p

abbrev pub number_after : Option Bytes → Option ℤ
number_after none = none
number_after (some p) = elim (strchr b':' p) [
  | none ↦ none
  | some q ↦ elim (strtoll (skip_blanks (drop 1 q))) [ none ↦ none | some r ↦ some r.0 ]
]

-- `parse_json_int64_field`; `none` is -1.
unfoldable pub int64_field : Bytes → Bytes → Option ℤ
unfolding skip_blanks
int64_field json field =
    let key = bounded 80 (quoted field) in number_after (past (length key) (strstr key json))

unfoldable pub payload_text : Bytes → Bytes → ℕ → Bytes
payload_text sub roles_json exp =
    text "{\"sub\":\""
    ++ (sub
        ++ (text "\",\"roles\":"
            ++ (roles_json ++ (text ",\"exp\":" ++ (decimal exp ++ text "}")))))

-- `session_ttl_s ? session_ttl_s : 28800`
abbrev pub ttl : Context → ℕ
ttl ctx = if ctx.session_ttl_s == 0 then 28800 else ctx.session_ttl_s

abbrev pub subject : Option Bytes → Bytes
subject none = text "lab"
subject (some s) = if is_empty s then text "lab" else s

abbrev pub join_dot : Bytes → Bytes → Bytes
join_dot a b = a ++ (b'.' ∷ b)

-- The part that follows the payload.
unfoldable pub sign_payload : Context → Bytes → ℕ → ℕ → ℕ → Bytes → Option (Bytes × Principal)
sign_payload ctx sub roles cookie_val_sz exp payload =
    if leb 256 (length payload) then none else elim (b64_encode payload 400 true) [
      | none ↦ none
      | some pay_b64 ↦ elim (b64_encode (hmac_sha256 ctx.hmac_key payload) 64 true) [
        | none ↦ none
        | some sig_b64 ↦
            let cookie = join_dot pay_b64 sig_b64 in
            if leb cookie_val_sz (length cookie)
            then none
            else some (
              cookie,
              record zero_principal {
                authenticated = true;
                sub = bounded 64 sub;
                roles = roles;
                exp = pos exp;
              },
            )
      ]
    ]

-- The part that follows the roles.
abbrev pub issue_with : Context → Bytes → ℕ → ℕ → ℕ → Option Bytes → Option (Bytes × Principal)
issue_with ctx sub roles cookie_val_sz clock none = none
issue_with ctx sub roles cookie_val_sz clock (some roles_json) =
    let exp = now_sec ctx clock + ttl ctx in
    sign_payload ctx sub roles cookie_val_sz exp (payload_text sub roles_json exp)

-- `edge_auth_session_issue`: the cookie and the principal in `*out_p`; `none` is -1. The pointers
-- `cookie_val` and `out_p` are not NULL.
unfoldable pub session_issue : Context → Option Bytes → ℕ → ℕ → ℕ → Option (Bytes × Principal)
unfolding sign_payload payload_text roles_to_json_array
session_issue ctx sub roles cookie_val_sz clock =
    if ltb cookie_val_sz 16 || length ctx.hmac_key == 0
    then none
    else issue_with ctx (subject sub) roles cookie_val_sz clock (roles_to_json_array roles 128)

-- The text before the first dot and the text behind it.
unfoldable pub split_dot : Bytes → Option (Bytes × Bytes)
split_dot [] = none
split_dot (c ∷ s) = elim (split_dot s) [
  | none ↦ if c == b'.' then some ([], s) else none
  | some p ↦ if c == b'.' then some ([], s) else some (c ∷ p.0, p.1)
]

abbrev pub expired : ℕ → ℤ → Bool
expired now exp = is_positive exp && reaches now exp

-- The string of a field that was read to its closing quote.
abbrev pub whole : Bool × Option Bytes → Option Bytes
whole (false, s) = none
whole (true, s) = s

-- The principal that the subject, the expiry and the roles make.
abbrev pub read_fields : ℕ → Option Bytes → Option ℤ → ℕ → Option Principal
read_fields now none exp roles = none
read_fields now (some s) none roles = none
read_fields now (some s) (some exp) roles =
    if expired now exp
    then none
    else some (record zero_principal {
      authenticated = true;
      sub = bounded 64 s;
      roles = roles;
      exp = exp;
    })

-- What is read from the payload once its signature is checked.
unfoldable pub read_payload : Bytes → ℕ → Option Principal
unfolding parse_roles_array int64_field
read_payload json now =
    read_fields now (whole (string_field json (text "sub") 64)) (int64_field json (text "exp"))
      (parse_roles_array json)

-- The signature check of a decoded payload.
unfoldable pub verify_payload : Context → Bytes → Bytes → ℕ → Option Principal
unfolding read_payload
verify_payload ctx payload sig_b64 now =
    if length payload == 0 || leb 320 (length payload) then none else elim (b64_decode sig_b64 32) [
      | none ↦ none
      | some sig ↦
          if not (length sig == 32)
          then none
          else if not (ct_eq (hmac_sha256 ctx.hmac_key payload) sig 32)
          then none
          else read_payload (until_nul payload) now
    ]

-- `edge_auth_session_verify`: the principal in `*out`; `none` is -1, which leaves `*out` cleared.
unfoldable pub session_verify : Context → Option Bytes → ℕ → Option Principal
unfolding split_dot verify_payload
session_verify ctx none clock = none
session_verify ctx (some cookie_val) clock =
    if length ctx.hmac_key == 0 then none else elim (split_dot cookie_val) [
      | none ↦ none
      | some parts ↦
          if is_empty parts.0
            || is_empty parts.1
            || leb 400 (length parts.0)
            || leb 64 (length parts.1)
          then none
          else elim (b64_decode parts.0 320) [
            | none ↦ none
            | some payload ↦ verify_payload ctx payload parts.1 (now_sec ctx clock)
          ]
    ]
