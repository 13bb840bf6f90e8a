-- ===== src/Auth/Tests.antt =====
-- The access rules and the texts at concrete inputs.
use edgehost.Prelude.{
  ℕ, ◌≡◌, ◌≢◌, ◌↔◌, refl, arith, Bool, true, false, List, [], ◌∷◌, ◌++◌, some, inl, inr, ◌==◌,
  if◌then◌else◌, replicate, length,
}
use edgehost.Prelude.Text.{Bytes, text, str_eq, starts_with}
use edgehost.Auth.{
  Context, Principal, zero_principal, initial_context, allow, deny, employee, ingest, role_has,
  rbac_check, classify, mode_name, open_mode, mode_enforced, resource_name, openai,
}
use edgehost.Auth.Access.{Gate, rbac_check-Gate}
use edgehost.Auth.Password.{compare_from, password_ok, password_ok_iff}
use edgehost.Auth.Cookie.{cookie_extract, header, session_prefix, cookie_extract-header}
use edgehost.Auth.Csv.{joined, union, roles_from_csv, roles_from_csv-joined}
use edgehost.Auth.Base64.{b64_encode, b64_decode, encode_groups, url_chars, url_char, strip_padding}
use edgehost.Auth.Base64.RoundTrip.{b64_decode-encode}
use edgehost.Auth.Login.{
  parse_login_password, login_body, escaped, string_field, string_after, copy_string, strchr,
  until_nul, strstr, parse_login_password-body,
}

abbrev robot : Principal
robot = record zero_principal { authenticated = true; roles = ingest }

robot_may_put :
    rbac_check
      (some robot)
      (classify (some (text "PUT")) (some (text "/api/v1/state/net.core/a")) false)
    ≡ allow
unfolding rbac_check classify role_has str_eq starts_with
robot_may_put = refl

robot_may_not_get :
    rbac_check
      (some robot)
      (classify (some (text "GET")) (some (text "/api/v1/state/net.core/a")) false)
    ≡ deny
unfolding rbac_check classify role_has str_eq starts_with
robot_may_not_get = refl

names_and_modes :
    (mode_name open_mode ≡ text "open")
    × (mode_enforced open_mode ≡ false)
    × (resource_name openai ≡ text "OPENAI")
unfolding mode_name mode_enforced resource_name
names_and_modes = (refl, refl, refl)

rbac_check-Gate_example : Gate robot (text "PUT") (text "/api/v1/state/net.core/a") false
rbac_check-Gate_example = rbac_check-Gate robot (text "PUT") (text "/api/v1/state/net.core/a") false

abbrev lab : Context
lab = record initial_context { lab_password = text "lab" }

-- 256 more bytes than the password has: the length's low byte is the same, and only 128 bytes are
-- compared.
padded_password_passes : password_ok lab (some (text "lab" ++ replicate 256 0)) ≡ true
unfolding password_ok compare_from
padded_password_passes = refl

password_ok_iff_example : (password_ok lab (some (text "lap")) ≡ true) ↔ (text "lap" ≡ text "lab")
password_ok_iff_example = password_ok_iff lab (text "lap") (λ e. cc) (omega arith) (omega arith)

cookie_extract-header_example :
    cookie_extract (some (header (text "a=1" ∷ []) (session_prefix ++ (text "xyz" ++ [])))) 768
    ≡ (true, some (text "xyz"))
unfolding starts_with
cookie_extract-header_example =
    cookie_extract-header 768 (text "a=1" ∷ []) (text "xyz") []
      (
        record {
          nonempty = refl;
          no_blank = refl;
          plain = (refl, (refl, (refl, tt)));
          other = refl;
        },
        tt,
      )
      (record { nonempty = refl; fits = omega arith; plain = (refl, (refl, (refl, tt))) })
      (inl refl)

roles_from_csv-joined_example : roles_from_csv (some (joined (text "cpe") (text "vip" ∷ []))) ≡ (
    if union 0 (text "cpe" ∷ text "vip" ∷ []) == 0
    then employee
    else union 0 (text "cpe" ∷ text "vip" ∷ []))
roles_from_csv-joined_example =
    roles_from_csv-joined (text "cpe") (text "vip" ∷ [])
      (record { nonempty = refl; fits = omega arith; plain = (refl, (refl, (refl, tt))) })
      (record { nonempty = refl; fits = omega arith; plain = (refl, (refl, (refl, tt))) }, tt)

subject_field : string_field (text "{\"sub\": \"lab\"}") (text "sub") 64 ≡ (true, some (text "lab"))
unfolding string_field string_after copy_string strchr strstr starts_with
    edgehost.Prelude.Text.bounded
subject_field = refl

parse_login_password-body_example :
    parse_login_password (some (login_body (text "a\"b"))) 128 ≡ (true, some (text "a\"b"))
unfolding escaped
parse_login_password-body_example =
    parse_login_password-body (text "a\"b") 128 (refl, (refl, (refl, tt))) (omega arith)
      (omega arith)

-- `JSON.stringify` writes a tab as a backslash and a `t`, and the backslash is what is dropped.
tab_is_lost :
    parse_login_password (some (login_body (b'a' ∷ 9 ∷ b'b' ∷ []))) 128 ≡ (true, some (text "atb"))
unfolding escaped parse_login_password string_after copy_string strchr strstr starts_with until_nul
tab_is_lost = refl

lab_encoded : b64_encode (text "lab?") 16 true ≡ some (text "bGFiPw")
unfolding b64_encode encode_groups url_chars url_char strip_padding
lab_encoded = refl

b64_decode-encode_example : b64_decode (text "bGFiPw") 4 ≡ some (text "lab?")
b64_decode-encode_example =
    b64_decode-encode (text "lab?") (text "bGFiPw") 16 4
      (omega arith, (omega arith, (omega arith, (omega arith, tt)))) lab_encoded (omega arith)
      (omega arith)
