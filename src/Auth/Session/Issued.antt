-- ===== src/Auth/Session/Issued.antt =====
-- What `edge_auth_session_issue` of src/core/auth_rbac.c makes.
use edgehost.Prelude.{
  ℕ, ◌+◌, ◌≤◌, ◌<◌, ◌≡◌, refl, arith, true, false, ◌||◌, [], ◌++◌, append-nil, Option, none, some,
  leb, ltb, ◌==◌, length, ap, sym, ◌∙◌, subst, Bool-cases, Option-cases, inl, inr,
}
use edgehost.Prelude.Int.{pos}
use edgehost.Prelude.Text.{Bytes, text, is_empty, bounded}
use edgehost.Auth.{Context, Principal, zero_principal}
use edgehost.Auth.Base64.{b64_encode}
use edgehost.Auth.Hmac.{hmac_sha256}
use edgehost.Auth.Session.{
  now_sec, roles_to_json_array, payload_text, ttl, join_dot, issue_with, sign_payload,
  session_issue,
}
use edgehost.Auth.Session.Roles.{array_then, roles_to_json_array-then}
use edgehost.Auth.Session.Payload.{tail_text, payload_of}

-- What a cookie that was issued is made of.
pub record IsIssued (ctx : Context) (sub : Bytes) (roles exp : ℕ) (cookie : Bytes) (p : Principal)
    : Type 0 where
  pub keyed : (length ctx.hmac_key == 0) ≡ false
  pub array_fits : length (array_then roles []) ≤ 127
  pub payload_fits : length (payload_of sub roles exp) < 256
  pub pay_b64 : Bytes
  pub pay_made : b64_encode (payload_of sub roles exp) 400 true ≡ some pay_b64
  pub sig_b64 : Bytes
  pub sig_made :
      b64_encode (hmac_sha256 ctx.hmac_key (payload_of sub roles exp)) 64 true ≡ some sig_b64
  pub cookie_lem : cookie ≡ join_dot pay_b64 sig_b64
  pub principal : p ≡ (record zero_principal {
    authenticated = true;
    sub = bounded 64 sub;
    roles = roles;
    exp = pos exp;
  })

cookie_of : Option (Bytes × Principal) → Bytes
cookie_of none = []
cookie_of (some r) = r.0

principal_of : Option (Bytes × Principal) → Principal
principal_of none = zero_principal
principal_of (some r) = r.1

sign_payload-IsIssued :
    (ctx : Context) (sub : Bytes) (roles size exp : ℕ) (cookie : Bytes) (p : Principal)
    → (length ctx.hmac_key == 0) ≡ false
    → length (array_then roles []) ≤ 127
    → sign_payload ctx sub roles size exp (payload_of sub roles exp) ≡ some (cookie, p)
    → IsIssued ctx sub roles exp cookie p
unfolding sign_payload cookie_of principal_of
sign_payload-IsIssued ctx sub roles size exp cookie p keyed fits h =
    let payload = payload_of sub roles exp in
    elim (Bool-cases (leb 256 (length payload))) [
      | inl large ↦ absurd (cc (rw large at h))
      | inr small ↦ elim (Option-cases (b64_encode payload 400 true)) [
        | inl e ↦ absurd (cc (rw (small, e) at h))
        | inr (pay, pe) ↦
            elim (Option-cases (b64_encode (hmac_sha256 ctx.hmac_key payload) 64 true)) [
              | inl e ↦ absurd (cc (rw (small, pe, e) at h))
              | inr (sgn, se) ↦ elim (Bool-cases (leb size (length (join_dot pay sgn)))) [
                | inl long ↦ absurd (cc (rw (small, pe, se, long) at h))
                | inr room ↦
                    let made = rw (small, pe, se, room) at h in
                    record {
                      keyed = keyed;
                      array_fits = fits;
                      payload_fits = ground (arith, small);
                      pay_b64 = pay;
                      pay_made = pe;
                      sig_b64 = sgn;
                      sig_made = se;
                      cookie_lem = sym (ap cookie_of made);
                      principal = sym (ap principal_of made);
                    }
              ]
            ]
      ]
    ]

payload_same :
    (sub roles_json : Bytes) (roles exp : ℕ)
    → roles_to_json_array roles 128 ≡ some roles_json
    → (payload_text sub roles_json exp ≡ payload_of sub roles exp)
      × (length (array_then roles []) ≤ 127)
unfolding payload_text
payload_same sub roles_json roles exp h =
    let (tail, fits) = roles_to_json_array-then roles 128 roles_json (tail_text exp) h in
    let (whole_array, fits2) = roles_to_json_array-then roles 128 roles_json [] h in
    (
      ap (λ t. text "{\"sub\":\"" ++ (sub ++ (text "\",\"roles\":" ++ t))) tail,
      subst (λ t. length t ≤ 127) (sym (append-nil roles_json) ∙ whole_array) fits,
    )

issue_with-IsIssued :
    (ctx : Context) (sub : Bytes) (roles size clock : ℕ) (made : Option Bytes) (cookie : Bytes)
    (p : Principal)
    → (length ctx.hmac_key == 0) ≡ false
    → roles_to_json_array roles 128 ≡ made
    → issue_with ctx sub roles size clock made ≡ some (cookie, p)
    → IsIssued ctx sub roles (now_sec ctx clock + ttl ctx) cookie p
issue_with-IsIssued ctx sub roles size clock none cookie p keyed e h = absurd (cc h)
issue_with-IsIssued ctx sub roles size clock (some roles_json) cookie p keyed e h =
    let exp = now_sec ctx clock + ttl ctx in
    let (same, fits) = payload_same sub roles_json roles exp e in
    sign_payload-IsIssued ctx sub roles size exp cookie p keyed fits
      (subst (λ t. sign_payload ctx sub roles size exp t ≡ some (cookie, p)) same h)

pub session_issue-IsIssued :
    (ctx : Context) (sub : Bytes) (roles size clock : ℕ) (cookie : Bytes) (p : Principal)
    → is_empty sub ≡ false
    → session_issue ctx (some sub) roles size clock ≡ some (cookie, p)
    → IsIssued ctx sub roles (now_sec ctx clock + ttl ctx) cookie p
unfolding session_issue
session_issue-IsIssued ctx sub roles size clock cookie p some_char h =
    elim (Bool-cases (ltb size 16 || length ctx.hmac_key == 0)) [
      | inl refused ↦ absurd (cc (rw refused at h))
      | inr allowed ↦
          issue_with-IsIssued ctx sub roles size clock (roles_to_json_array roles 128) cookie p
            (ground (arith, allowed)) refl (rw (allowed, some_char) at h)
    ]
