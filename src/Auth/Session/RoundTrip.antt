-- ===== src/Auth/Session/RoundTrip.antt =====
-- `edge_auth_session_verify` on the cookies of `edge_auth_session_issue`.
use edgehost.Prelude.{
  ℕ, ◌<◌, ◌^◌, ◌≡◌, refl, arith, true, false, ◌||◌, [], ◌∷◌, Option, none, some, some_inj, leb,
  ◌==◌, ==_iff, if◌then◌else◌, length, All, ap, sym, ◌∙◌, subst, Option-cases, inl, inr,
}
use edgehost.Prelude.Int.{pos}
use edgehost.Prelude.Text.{Bytes, is_empty}
use edgehost.Auth.{Context, Principal}
use edgehost.Auth.Base64.{b64_decode, decode_from}
use edgehost.Auth.Base64.RoundTrip.{b64_decode-encode}
use edgehost.Auth.Base64.Size.{IsDotless, b64_encode-url}
use edgehost.Auth.Hmac.{hmac_sha256, ct_eq, ct_eq_iff, length-hmac, hmac-IsByte}
use edgehost.Auth.Login.{until_nul_id}
use edgehost.Auth.Session.{
  now_sec, parse_roles_array, join_dot, split_dot, expired, read_fields, whole, read_payload,
  verify_payload, session_verify,
}
use edgehost.Auth.Session.Mask.{HasSameRoles}
use edgehost.Auth.Session.Payload.{
  IsSubject, payload_of, string_field-payload, parse_roles_array-payload, int64_field-payload,
}
use edgehost.Auth.Session.Plain.{IsPlain, payload-IsPlain}
use edgehost.Auth.Session.Issued.{IsIssued}

split_dotless : (a b : Bytes) → All IsDotless a → split_dot (join_dot a b) ≡ some (a, b)
unfolding split_dot
split_dotless [] b h = elim (Option-cases (split_dot b)) [
  | inl e ↦ rw e refl
  | inr (parts, e) ↦ rw e refl
]
split_dotless (c ∷ a) b h = rw (split_dotless a b h.1, h.0) refl

plain-IsByte : (s : Bytes) → All IsPlain s → All (λ c. c < 256) s
plain-IsByte [] h = tt
plain-IsByte (c ∷ s) h = (ground (arith, h.0), plain-IsByte s h.1)

plain_nonzero : (s : Bytes) → All IsPlain s → All (λ c. (c == 0) ≡ false) s
plain_nonzero [] h = tt
plain_nonzero (c ∷ s) h = (ground (arith, h.0), plain_nonzero s h.1)

-- What a buffer of positive size decodes to is not made of nothing.
encoded_some :
    (src s : Bytes) (room : ℕ)
    → b64_decode src room ≡ some s
    → (length s == 0) ≡ false
    → is_empty src ≡ false
unfolding b64_decode decode_from
encoded_some [] s room h some_char =
    absurd (cc (subst (λ t. (length t == 0) ≡ false) (sym (some_inj h)) some_char))
encoded_some (c ∷ src) s room h some_char = refl

module _ (ctx : Context) (sub : Bytes) (roles exp : ℕ) (cookie : Bytes) (p : Principal)
    (good : IsSubject sub) (made : IsIssued ctx sub roles exp cookie p) where
  payload_read : b64_decode made.pay_b64 320 ≡ some (payload_of sub roles exp)
  payload_read =
      b64_decode-encode (payload_of sub roles exp) made.pay_b64 400 320
        (plain-IsByte (payload_of sub roles exp) (payload-IsPlain sub roles exp good)) made.pay_made
        (omega (arith, (b64_encode-url _ _ _ made.pay_made).0)) (omega (arith, made.payload_fits))

  signature_read :
      b64_decode made.sig_b64 32 ≡ some (hmac_sha256 ctx.hmac_key (payload_of sub roles exp))
  signature_read =
      b64_decode-encode (hmac_sha256 ctx.hmac_key (payload_of sub roles exp)) made.sig_b64 64 32
        (hmac-IsByte ctx.hmac_key (payload_of sub roles exp)) made.sig_made
        (omega (arith, (b64_encode-url _ _ _ made.sig_made).0))
        (omega (arith, length-hmac ctx.hmac_key (payload_of sub roles exp)))

  -- The signature check passes.
  verify_payload-issued :
      (now : ℕ)
      → verify_payload ctx (payload_of sub roles exp) made.sig_b64 now
        ≡ read_payload (payload_of sub roles exp) now
  unfolding verify_payload
  verify_payload-issued now =
      let payload = payload_of sub roles exp in
      let mac = hmac_sha256 ctx.hmac_key payload in
      let small : (length payload == 0 || leb 320 (length payload)) ≡ false =
        ground (arith, made.payload_fits) in
      let full : (length mac == 32) ≡ true =
        (==_iff (length mac) 32).1 (length-hmac ctx.hmac_key payload) in
      let right : ct_eq mac mac 32 ≡ true =
        (ct_eq_iff mac mac 32 (length-hmac ctx.hmac_key payload)
            (length-hmac ctx.hmac_key payload)).1
          refl in
      rw (small, signature_read, full, right)
        (ap (λ t. read_payload t now)
          (until_nul_id payload (plain_nonzero payload (payload-IsPlain sub roles exp good))))

  -- So does the way there,
  pub session_verify-issued :
      (clock : ℕ)
      → session_verify ctx (some cookie) clock
        ≡ read_payload (payload_of sub roles exp) (now_sec ctx clock)
  unfolding session_verify
  session_verify-issued clock =
      let payload = payload_of sub roles exp in
      let (pay_short, dotless) = b64_encode-url payload made.pay_b64 400 made.pay_made in
      let (sig_short, _) =
        b64_encode-url (hmac_sha256 ctx.hmac_key payload) made.sig_b64 64 made.sig_made in
      let e1 : is_empty made.pay_b64 ≡ false =
        encoded_some made.pay_b64 payload 320 payload_read (ground arith) in
      let e2 : is_empty made.sig_b64 ≡ false =
        encoded_some made.sig_b64 _ 32 signature_read
          (ground (arith, length-hmac ctx.hmac_key payload)) in
      let e3 : leb 400 (length made.pay_b64) ≡ false = ground (arith, pay_short) in
      let e4 : leb 64 (length made.sig_b64) ≡ false = ground (arith, sig_short) in
      ap (λ t. session_verify ctx (some t) clock) made.cookie_lem
      ∙ rw
          (
            made.keyed,
            split_dotless made.pay_b64 made.sig_b64 dotless,
            e1,
            e2,
            e3,
            e4,
            payload_read,
          )
          (verify_payload-issued (now_sec ctx clock))

  -- and what is read is what was written, until it expires.
  pub read_payload-issued :
      (now : ℕ)
      → exp < 2 ^ 63
      → read_payload (payload_of sub roles exp) now ≡ (
          if expired now (pos exp)
          then none
          else some (record p { roles = parse_roles_array (payload_of sub roles exp) }))
  unfolding read_payload
  read_payload-issued now small =
      let e1 = string_field-payload sub roles exp good in
      let e2 = int64_field-payload sub roles exp good small in
      (λ i. read_fields now (whole (e1 i)) (e2 i) (parse_roles_array (payload_of sub roles exp)))
      ∙ (ap
          (λ (q : Principal).
            (let r : Option Principal =
                (if expired now (pos exp)
                  then none
                  else some (record q { roles = parse_roles_array (payload_of sub roles exp) })) in
              r))
          (sym made.principal))

  pub roles-issued : HasSameRoles (parse_roles_array (payload_of sub roles exp)) roles
  roles-issued = parse_roles_array-payload sub roles exp good made.array_fits
