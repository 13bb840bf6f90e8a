-- ===== src/Auth/SignedTests.antt =====
-- The hash, the sessions and the proxy headers at concrete inputs.
use edgehost.Prelude.{ℕ, ◌+◌, ◌≡◌, refl, arith, true, false, [], ◌∷◌, none, some, if◌then◌else◌}
use edgehost.Prelude.Int.{pos}
use edgehost.Prelude.Text.{
  Bytes, text, str_eq, starts_with, decimal, digits, bounded, is_digit, is_space,
}
use edgehost.Auth.{Context, Principal, zero_principal, initial_context, role_has}
use edgehost.Auth.Base64.{
  b64_encode, b64_decode, encode_groups, url_chars, url_char, strip_padding, b64_decode_char,
  decode_from,
}
use edgehost.Auth.Sha256.{
  sha256, update, final, transform, digest, add_byte, padded_block, round, rounds, block_words,
  extend_words, words_bytes, length_bytes,
}
use edgehost.Auth.Sha256.Padding.{sha256_of_blocks, sha256_lem}
use edgehost.Auth.Hmac.{hmac_sha256, masked, ct_eq, differences}
use edgehost.Auth.Session.{
  session_issue, session_verify, sign_payload, payload_text, roles_to_json_array, add_roles,
  split_dot, verify_payload, read_payload, parse_roles_array, int64_field, skip_blanks, roles_in,
  to_bracket, expired,
}
use edgehost.Auth.Login.{until_nul, string_field, string_after, copy_string, strchr, strstr}
use edgehost.Auth.Csv.{roles_from_csv}
use edgehost.Auth.Number.{strtoll, drop_spaces, after_sign, unsigned_part, read_digits}
use edgehost.Auth.Session.Mask.{HasSameRoles}
use edgehost.Auth.Session.Payload.{IsSubject}
use edgehost.Auth.Session.Verify.{IsSigned, session_verify-issue, session_verify-IsSigned}
use edgehost.Auth.Proxy.{proxy_sign, proxy_verify, proxy_canonical, is_clean, max_skew, refused}
use edgehost.Auth.Proxy.Verify.{IsAccepted, proxy_verify-signed}
use edgehost.Auth.Proxy.RoundTrip.{proxy_verify-sign}

-- The hash of `abc` that FIPS 180-2 gives.
sha256_abc : sha256 (text "abc") ≡ (
    0xba ∷ 0x78 ∷ 0x16 ∷ 0xbf ∷ 0x8f ∷ 0x01 ∷ 0xcf ∷ 0xea ∷ 0x41 ∷ 0x41 ∷ 0x40 ∷ 0xde ∷ 0x5d ∷ 0xae
    ∷ 0x22 ∷ 0x23 ∷ 0xb0 ∷ 0x03 ∷ 0x61 ∷ 0xa3 ∷ 0x96 ∷ 0x17 ∷ 0x7a ∷ 0x9c ∷ 0xb4 ∷ 0x10 ∷ 0xff
    ∷ 0x61 ∷ 0xf2 ∷ 0x00 ∷ 0x15 ∷ 0xad ∷ [])
unfolding sha256 update final transform digest add_byte padded_block round rounds block_words
    extend_words words_bytes length_bytes
sha256_abc = refl

sha256_lem_example : sha256 (text "abc") ≡ sha256_of_blocks (text "abc")
sha256_lem_example = sha256_lem (text "abc")

abbrev host : Context
host = record initial_context {
  hmac_key = text "key";
  proxy_hmac_key = text "key";
  now_sec_override = 1000;
}

abbrev host_later : ℕ → Context
host_later now = record host { now_sec_override = now }

abbrev lab_cookie : Bytes
lab_cookie =
    text
      "eyJzdWIiOiJsYWIiLCJyb2xlcyI6WyJlbXBsb3llZSIsImluZ2VzdCJdLCJleHAiOjI5ODAwfQ.6qpsA9vl--A-514WoVvlBzxa2kCtFK14Ib88J-GgsQQ"

abbrev lab_principal : Principal
lab_principal = record zero_principal {
  authenticated = true;
  sub = text "lab";
  roles = 33;
  exp = pos 29800;
}

-- The cookie that another implementation of HMAC-SHA-256 signs.
issued : session_issue host (some (text "lab")) 33 200 0 ≡ some (lab_cookie, lab_principal)
unfolding session_issue sign_payload payload_text roles_to_json_array add_roles role_has decimal
    digits bounded b64_encode encode_groups url_chars url_char strip_padding hmac_sha256 masked
    update final transform digest add_byte padded_block round rounds block_words extend_words
    words_bytes length_bytes
issued = refl

lab-IsSubject : IsSubject (text "lab")
unfolding str_eq
lab-IsSubject = record {
  chars = (refl, (refl, (refl, tt)));
  not_exp = refl;
  not_roles = refl;
  some_char = refl;
  short = omega arith;
}

session_verify-issue_example :
    (m : ℕ) × (session_verify host (some lab_cookie) 0
      ≡ (if true then some (record lab_principal { roles = m }) else none))
    × HasSameRoles m 33
session_verify-issue_example =
    session_verify-issue host (text "lab") 33 200 0 0 lab_cookie lab_principal lab-IsSubject issued
      (omega arith)

-- A second after it expired.
late_cookie : session_verify (host_later 29801) (some lab_cookie) 0 ≡ none
unfolding session_verify split_dot verify_payload read_payload parse_roles_array int64_field
    skip_blanks roles_in to_bracket until_nul string_field string_after copy_string strchr strstr
    str_eq starts_with bounded strtoll drop_spaces is_space after_sign unsigned_part read_digits
    is_digit b64_decode decode_from b64_decode_char hmac_sha256 masked update final transform digest
    add_byte padded_block round rounds block_words extend_words words_bytes length_bytes ct_eq
    differences
late_cookie = refl

accepted : session_verify host (some lab_cookie) 0 ≡ some lab_principal
unfolding session_verify split_dot verify_payload read_payload parse_roles_array int64_field
    skip_blanks roles_in to_bracket until_nul string_field string_after copy_string strchr strstr
    str_eq starts_with bounded strtoll drop_spaces is_space after_sign unsigned_part read_digits
    is_digit b64_decode decode_from b64_decode_char hmac_sha256 masked update final transform digest
    add_byte padded_block round rounds block_words extend_words words_bytes length_bytes ct_eq
    differences
accepted = refl

session_verify-IsSigned_example :
    IsSigned host lab_cookie 1000 lab_principal
    × ((true ≡ true) × (expired 1000 (pos 29800) ≡ false))
session_verify-IsSigned_example = session_verify-IsSigned host lab_cookie 0 lab_principal accepted

abbrev proxy_signature : Bytes
proxy_signature = text "wiA5ApIo568sGoz83GqkGGVcLM-SEHgWAQ8ycb4OBM0"

proxy_signed : proxy_sign host (text "lab") (some (text "cpe")) (pos 1000) 64 ≡ some proxy_signature
unfolding proxy_sign proxy_canonical decimal digits bounded b64_encode encode_groups url_chars
    url_char strip_padding hmac_sha256 masked update final transform digest add_byte padded_block
    round rounds block_words extend_words words_bytes length_bytes
proxy_signed = refl

proxy_allowed : refused host (text "lab") (text "cpe") ≡ false
unfolding refused is_clean
proxy_allowed = refl

abbrev proxy_user : Principal
proxy_user = record zero_principal {
  authenticated = true;
  sub = bounded 64 (text "lab");
  roles = roles_from_csv (some (text "cpe"));
  exp = pos (1000 + max_skew host);
}

proxy_verify-sign_example :
    proxy_verify host (text "lab") (some (text "cpe")) (decimal 1000) proxy_signature 0
    ≡ some proxy_user
proxy_verify-sign_example =
    proxy_verify-sign host (text "lab") proxy_signature (some (text "cpe")) 1000 64 0 proxy_allowed
      (omega arith) (omega arith) (omega arith) proxy_signed

proxy_verify-signed_example :
    (refused host (text "lab") (text "cpe") ≡ false)
    × IsAccepted host (text "lab") (text "cpe") (decimal 1000) proxy_signature 1000 proxy_user
proxy_verify-signed_example =
    proxy_verify-signed host (text "lab") (decimal 1000) proxy_signature (some (text "cpe")) 0
      proxy_user proxy_verify-sign_example

-- A subject is not escaped in the payload: one with quotes brings its own roles, which are found first.
abbrev forged_subject : Bytes
forged_subject = text "a\",\"roles\":[\"employee_admin\"],\"b\":\""

subject_brings_roles : parse_roles_array (payload_text forged_subject (text "[\"cpe\"]") 9) ≡ 2
unfolding parse_roles_array payload_text decimal digits to_bracket roles_in strchr strstr
    starts_with
subject_brings_roles = refl
