-- ===== src/Auth/Session/Verify.antt =====
-- What `edge_auth_session_verify` of src/core/auth_rbac.c accepts.
use edgehost.Prelude.{
  ℕ, ◌+◌, ◌<◌, ◌^◌, ◌≡◌, refl, arith, true, false, ◌||◌, Option, none, some, some_inj, leb, ◌==◌,
  ==_iff, length, ap, sym, ◌∙◌, subst, Bool-cases, Option-cases, inl, inr, if◌then◌else◌, ltb,
}
use edgehost.Prelude.Int.{ℤ, pos}
use edgehost.Prelude.Text.{Bytes, text, is_empty}
use edgehost.Auth.{Context, Principal}
use edgehost.Auth.Base64.{b64_decode}
use edgehost.Auth.Hmac.{hmac_sha256, ct_eq, ct_eq_iff, length-hmac}
use edgehost.Auth.Session.{
  now_sec, read_fields, whole, int64_field, ttl, session_issue, parse_roles_array, split_dot,
  expired, read_payload, verify_payload, session_verify,
}
use edgehost.Auth.Login.{until_nul, string_field}
use edgehost.Auth.Session.Mask.{HasSameRoles}
use edgehost.Auth.Session.Payload.{IsSubject, payload_of}
use edgehost.Auth.Session.Issued.{session_issue-IsIssued}
use edgehost.Auth.Session.RoundTrip.{session_verify-issued, read_payload-issued, roles-issued}

ttl_positive : (ctx : Context) → 0 < ttl ctx
ttl_positive ctx = ground arith

expired_or_live :
    (now exp : ℕ) (p : Principal)
    → 0 < exp
    → ◌≡◌ {A = Option Principal}
        (if expired now (pos exp) then none else some p)
        (if ltb now exp then some p else none)
expired_or_live now exp p positive = elim (Bool-cases (ltb now exp)) [
  | inl live ↦
      let early : expired now (pos exp) ≡ false = ground (arith, live) in rw (live, early) refl
  | inr dead ↦
      let late : expired now (pos exp) ≡ true = ground (arith, dead, positive) in
      rw (dead, late) refl
]

-- A cookie that was issued to a subject of 1 to 63 characters, without a quote, a backslash or a NUL and
-- other than `exp` and `roles`, with an expiry below 2^63, is accepted with the same key at every time
-- before its expiry and refused from then on: the principal is the one that was issued, with the same six
-- roles.
pub session_verify-issue :
    (ctx : Context) (sub : Bytes) (roles size clock later : ℕ) (cookie : Bytes) (p : Principal)
    → IsSubject sub
    → session_issue ctx (some sub) roles size clock ≡ some (cookie, p)
    → now_sec ctx clock + ttl ctx < 2 ^ 63
    → (m : ℕ) × (session_verify ctx (some cookie) later ≡ (
        if ltb (now_sec ctx later) (now_sec ctx clock + ttl ctx)
        then some (record p { roles = m })
        else none))
      × HasSameRoles m roles
session_verify-issue ctx sub roles size clock later cookie p good h small =
    let exp = now_sec ctx clock + ttl ctx in
    let made = session_issue-IsIssued ctx sub roles size clock cookie p good.some_char h in
    (
      parse_roles_array (payload_of sub roles exp),
      session_verify-issued ctx sub roles exp cookie p good made later
          ∙ read_payload-issued ctx sub roles exp cookie p good made (now_sec ctx later) small
          ∙ expired_or_live (now_sec ctx later) exp
              (record p { roles = parse_roles_array (payload_of sub roles exp) })
              (omega (arith, ttl_positive ctx)),
      roles-issued ctx sub roles exp cookie p good made,
    )

-- What an accepted cookie is made of.
pub record IsSigned (ctx : Context) (cookie : Bytes) (now : ℕ) (p : Principal) : Type 0 where
  keyed : (length ctx.hmac_key == 0) ≡ false
  pay_b64 : Bytes
  sig_b64 : Bytes
  parts : split_dot cookie ≡ some (pay_b64, sig_b64)
  payload : Bytes
  decoded : b64_decode pay_b64 320 ≡ some payload
  signature : b64_decode sig_b64 32 ≡ some (hmac_sha256 ctx.hmac_key payload)
  read : read_payload (until_nul payload) now ≡ some p

verify_payload-signed :
    (ctx : Context) (payload sig_b64 : Bytes) (now : ℕ) (p : Principal)
    → verify_payload ctx payload sig_b64 now ≡ some p
    → (b64_decode sig_b64 32 ≡ some (hmac_sha256 ctx.hmac_key payload))
      × (read_payload (until_nul payload) now ≡ some p)
unfolding verify_payload
verify_payload-signed ctx payload sig_b64 now p h =
    let mac = hmac_sha256 ctx.hmac_key payload in
    elim (Bool-cases (length payload == 0 || leb 320 (length payload))) [
      | inl e ↦ absurd (cc (rw e at h))
      | inr e ↦ elim (Option-cases (b64_decode sig_b64 32)) [
        | inl d ↦ absurd (cc (rw (e, d) at h))
        | inr (sig, d) ↦ elim (Bool-cases (length sig == 32)) [
          | inr f ↦ absurd (cc (rw (e, d, f) at h))
          | inl f ↦ elim (Bool-cases (ct_eq mac sig 32)) [
            | inr g ↦ absurd (cc (rw (e, d, f, g) at h))
            | inl g ↦
                let same =
                  (ct_eq_iff mac sig 32 (length-hmac ctx.hmac_key payload)
                      ((==_iff (length sig) 32).0 f)).0
                    g in
                (d ∙ ap some (sym same), rw (e, d, f, g) at h)
          ]
        ]
      ]
    ]

read_fields-some :
    (now : ℕ) (s : Option Bytes) (e : Option ℤ) (roles : ℕ) (p : Principal)
    → read_fields now s e roles ≡ some p
    → (p.authenticated ≡ true) × (expired now p.exp ≡ false)
read_fields-some now none e roles p h = absurd (cc h)
read_fields-some now (some s) none roles p h = absurd (cc h)
read_fields-some now (some s) (some e) roles p h = elim (Bool-cases (expired now e)) [
  | inl dead ↦ absurd (cc (rw dead at h))
  | inr live ↦
      subst (λ (q : Principal). (q.authenticated ≡ true) × (expired now q.exp ≡ false))
        (some_inj (rw live at h)) (refl, live)
]

-- A cookie that is accepted, whatever it is, holds a text and behind its first dot the HMAC of that text
-- under the context's key, which is not empty; the principal is read from the text up to a NUL in it; it
-- is authenticated, and its expiry, when it has a positive one, lies ahead.
pub session_verify-IsSigned :
    (ctx : Context) (cookie : Bytes) (clock : ℕ) (p : Principal)
    → session_verify ctx (some cookie) clock ≡ some p
    → IsSigned ctx cookie (now_sec ctx clock) p
      × ((p.authenticated ≡ true) × (expired (now_sec ctx clock) p.exp ≡ false))
unfolding session_verify read_payload
session_verify-IsSigned ctx cookie clock p h = elim (Bool-cases (length ctx.hmac_key == 0)) [
  | inl e ↦ absurd (cc (rw e at h))
  | inr e ↦ elim (Option-cases (split_dot cookie)) [
    | inl d ↦ absurd (cc (rw (e, d) at h))
    | inr (parts, d) ↦
        elim (Bool-cases (
          is_empty parts.0
          || is_empty parts.1
          || leb 400 (length parts.0)
          || leb 64 (length parts.1))) [
            | inl f ↦ absurd (cc (rw (e, d, f) at h))
            | inr f ↦ elim (Option-cases (b64_decode parts.0 320)) [
              | inl g ↦ absurd (cc (rw (e, d, f, g) at h))
              | inr (payload, g) ↦
                  let (signature, read) =
                    verify_payload-signed ctx payload parts.1 (now_sec ctx clock) p
                      (rw (e, d, f, g) at h) in
                  (
                    record {
                      keyed = e;
                      pay_b64 = parts.0;
                      sig_b64 = parts.1;
                      parts = d;
                      payload = payload;
                      decoded = g;
                      signature = signature;
                      read = read;
                    },
                    read_fields-some (now_sec ctx clock)
                        (whole (string_field (until_nul payload) (text "sub") 64))
                        (int64_field (until_nul payload) (text "exp"))
                        (parse_roles_array (until_nul payload)) p read,
                  )
            ]
          ]
  ]
]
