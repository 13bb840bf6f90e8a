-- ===== src/Auth/Proxy/Verify.antt =====
-- What `edge_auth_proxy_verify` of src/core/auth_rbac.c accepts.
use edgehost.Prelude.{
  ℕ, ◌+◌, ◌≤◌, ◌≡◌, refl, arith, true, false, ◌||◌, [], ◌∷◌, Option, none, some, some_inj, leb, ltb,
  ◌==◌, ==_iff, length, ap, sym, ◌∙◌, subst, Bool-cases, inl, inr,
}
use edgehost.Prelude.Int.{int64}
use edgehost.Prelude.Text.{Bytes, is_empty, bounded}
use edgehost.Auth.{Context, Principal, zero_principal}
use edgehost.Auth.Base64.{b64_decode}
use edgehost.Auth.Csv.{roles_from_csv}
use edgehost.Auth.Hmac.{hmac_sha256, ct_eq, ct_eq_iff, length-hmac}
use edgehost.Auth.Number.{strtoll}
use edgehost.Auth.Session.{now_sec}
use edgehost.Auth.Proxy.{
  roles_or_default, canonical_text, proxy_canonical, timestamp, max_skew, skew, check_mac,
  check_signature, refused, check_time, proxy_verify,
}

-- The principal of an accepted header, whose expiry is a sum in an `int64_t`.
abbrev pub proxy_principal : Context → Bytes → Bytes → ℕ → Principal
proxy_principal ctx user roles ts = record zero_principal {
  authenticated = true;
  sub = bounded 64 user;
  roles = roles_from_csv (some roles);
  exp = int64 (ts + max_skew ctx);
}

pub default_twice :
    (roles : Option Bytes)
    → roles_or_default (some (roles_or_default roles)) ≡ roles_or_default roles
default_twice none = refl
default_twice (some []) = refl
default_twice (some (c ∷ s)) = refl

proxy_canonical-some :
    (user ts canon : Bytes) (roles : Option Bytes) (out_sz : ℕ)
    → proxy_canonical user roles ts out_sz ≡ some canon
    → canon ≡ canonical_text user (roles_or_default roles) ts
unfolding proxy_canonical
proxy_canonical-some user ts canon roles out_sz h =
    elim (Bool-cases (is_empty user || is_empty ts || ltb out_sz 8)) [
      | inl bad ↦ absurd (cc (rw bad at h))
      | inr good ↦
          elim (Bool-cases
            (leb out_sz (length (canonical_text user (roles_or_default roles) ts)))) [
              | inl long ↦ absurd (cc (rw (good, long) at h))
              | inr fits ↦ sym (some_inj (rw (good, fits) at h))
            ]
    ]

check_mac-some :
    (ctx : Context) (user roles canon : Bytes) (ts : ℕ) (read : Option Bytes) (p : Principal)
    → check_mac ctx user roles ts canon read ≡ some p
    → (read ≡ some (hmac_sha256 ctx.proxy_hmac_key canon)) × (p ≡ proxy_principal ctx user roles ts)
unfolding check_mac
check_mac-some ctx user roles canon ts none p h = absurd (cc h)
check_mac-some ctx user roles canon ts (some sig) p h =
    let mac = hmac_sha256 ctx.proxy_hmac_key canon in
    elim (Bool-cases (length sig == 32)) [
      | inr f ↦ absurd (cc (rw f at h))
      | inl f ↦ elim (Bool-cases (ct_eq mac sig 32)) [
        | inr g ↦ absurd (cc (rw (f, g) at h))
        | inl g ↦
            let same =
              (ct_eq_iff mac sig 32 (length-hmac ctx.proxy_hmac_key canon)
                  ((==_iff (length sig) 32).0 f)).0
                g in
            (ap some (sym same), sym (some_inj (rw (f, g) at h)))
      ]
    ]

check_signature-some :
    (ctx : Context) (user roles sig_hdr : Bytes) (ts : ℕ) (made : Option Bytes) (p : Principal)
    → check_signature ctx user roles ts made sig_hdr ≡ some p
    → (canon : Bytes) × (made ≡ some canon)
      × (b64_decode sig_hdr 32 ≡ some (hmac_sha256 ctx.proxy_hmac_key canon))
      × (p ≡ proxy_principal ctx user roles ts)
check_signature-some ctx user roles sig_hdr ts none p h = absurd (cc h)
check_signature-some ctx user roles sig_hdr ts (some canon) p h =
    let (signature, principal) =
      check_mac-some ctx user roles canon ts (b64_decode sig_hdr 32) p h in
    (canon, refl, signature, principal)

-- The timestamp that is accepted, and what is signed.
pub record IsAccepted (ctx : Context) (user roles ts_hdr sig_hdr : Bytes) (now : ℕ) (p : Principal)
    : Type 0 where
  ts : ℕ
  read : timestamp (strtoll ts_hdr) ≡ some ts
  near : skew now ts ≤ max_skew ctx
  signature :
      b64_decode sig_hdr 32
      ≡ some (hmac_sha256 ctx.proxy_hmac_key (canonical_text user roles ts_hdr))
  principal : p ≡ proxy_principal ctx user roles ts

check_time-IsAccepted :
    (ctx : Context) (user ts_hdr sig_hdr : Bytes) (roles : Option Bytes) (clock : ℕ)
    (stamp : Option ℕ) (p : Principal)
    → timestamp (strtoll ts_hdr) ≡ stamp
    → check_time ctx user (roles_or_default roles) ts_hdr sig_hdr clock stamp ≡ some p
    → IsAccepted ctx user (roles_or_default roles) ts_hdr sig_hdr (now_sec ctx clock) p
unfolding check_time
check_time-IsAccepted ctx user ts_hdr sig_hdr roles clock none p e h = absurd (cc h)
check_time-IsAccepted ctx user ts_hdr sig_hdr roles clock (some ts) p e h =
    elim (Bool-cases (ltb (max_skew ctx) (skew (now_sec ctx clock) ts))) [
      | inl far ↦ absurd (cc (rw far at h))
      | inr near ↦
          let (canon, made, signature, principal) =
            check_signature-some ctx user (roles_or_default roles) sig_hdr ts _ p (rw near at h) in
          let canon_lem =
            proxy_canonical-some user ts_hdr canon (some (roles_or_default roles)) 256 made
            ∙ ap (λ r. canonical_text user r ts_hdr) (default_twice roles) in
          record {
            ts = ts;
            read = e;
            near = ground (arith, near);
            signature =
                subst (λ c. b64_decode sig_hdr 32 ≡ some (hmac_sha256 ctx.proxy_hmac_key c))
                  canon_lem signature;
            principal = principal;
          }
    ]

-- Headers that are accepted, whatever they are, pass the tests on the user and the roles, have a
-- timestamp no further from now than the largest skew, and are signed: the signature decodes to the HMAC
-- of the canonical text of the user, the roles and the timestamp. The principal is the user's.
pub proxy_verify-signed :
    (ctx : Context) (user ts_hdr sig_hdr : Bytes) (roles_hdr : Option Bytes) (clock : ℕ)
    (p : Principal)
    → proxy_verify ctx user roles_hdr ts_hdr sig_hdr clock ≡ some p
    → (refused ctx user (roles_or_default roles_hdr) ≡ false)
      × IsAccepted ctx user (roles_or_default roles_hdr) ts_hdr sig_hdr (now_sec ctx clock) p
unfolding proxy_verify
proxy_verify-signed ctx user ts_hdr sig_hdr roles_hdr clock p h =
    elim (Bool-cases (refused ctx user (roles_or_default roles_hdr))) [
      | inl bad ↦ absurd (cc (rw bad at h))
      | inr good ↦ (
        good,
        check_time-IsAccepted ctx user ts_hdr sig_hdr roles_hdr clock _ p refl (rw good at h),
      )
    ]
