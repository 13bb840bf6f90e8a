-- ===== src/Auth/Proxy/RoundTrip.antt =====
-- `edge_auth_proxy_verify` of src/core/auth_rbac.c on what `edge_auth_proxy_sign` signed, and what one
-- signature can stand for.
use edgehost.Prelude.{
  ℕ, zero, suc, ◌+◌, ◌/◌, ◌%◌, ◌≤◌, ◌<◌, ◌^◌, ◌≡◌, refl, arith, true, false, ◌||◌, [], ◌∷◌, ◌++◌,
  append-nil, Option, none, some, leb, ltb, ◌==◌, ==_iff, if◌then◌else◌, length, take_of_le, All,
  ap, sym, ◌∙◌, subst, Bool-cases, inl, inr,
}
use edgehost.Prelude.Int.{pos, int64_of_small}
use edgehost.Prelude.Text.{Bytes, is_empty, bounded, decimal, digits}
use edgehost.Auth.{Context, zero_principal}
use edgehost.Auth.Csv.{roles_from_csv}
use edgehost.Auth.Base64.{b64_encode, b64_decode}
use edgehost.Auth.Base64.RoundTrip.{b64_decode-encode}
use edgehost.Auth.Base64.Size.{length-b64_encode}
use edgehost.Auth.Hmac.{hmac_sha256, ct_eq, ct_eq_iff, length-hmac, hmac-IsByte}
use edgehost.Auth.Number.{strtoll, strtoll-decimal}
use edgehost.Auth.Session.{now_sec}
use edgehost.Auth.Proxy.{
  newline, roles_or_default, canonical_text, proxy_canonical, sign_canonical, proxy_sign, refused,
  is_clean, timestamp, max_skew, skew, check_mac, check_signature, check_time, proxy_verify,
}
use edgehost.Auth.Proxy.Verify.{default_twice, proxy_principal}

length-digits : (f n : ℕ) (t : Bytes) → length (digits f n t) ≤ f + length t
unfolding digits
length-digits zero n t = omega arith
length-digits (suc f) n t = elim (Bool-cases (ltb n 10)) [
  | inl last ↦ rw last (omega arith)
  | inr more ↦ rw more (omega (arith, length-digits f (n / 10) ((n % 10 + b'0') ∷ t)))
]

bounded-decimal : (n : ℕ) → bounded 32 (decimal n) ≡ decimal n
unfolding bounded decimal
bounded-decimal n = take_of_le 31 (digits 20 n []) (omega (arith, length-digits 20 n []))

proxy_canonical-default :
    (user ts : Bytes) (roles : Option Bytes)
    → proxy_canonical user (some (roles_or_default roles)) ts 256
      ≡ proxy_canonical user roles ts 256
unfolding proxy_canonical
proxy_canonical-default user ts roles =
    ap
      (λ r.
        if is_empty user || is_empty ts || false
        then none
        else if leb 256 (length (canonical_text user r ts))
        then none
        else some (canonical_text user r ts))
      (default_twice roles)

check_mac-signed :
    (ctx : Context) (user roles canon sig : Bytes) (ts size : ℕ)
    → b64_encode (hmac_sha256 ctx.proxy_hmac_key canon) size true ≡ some sig
    → check_mac ctx user roles ts canon (b64_decode sig 32)
      ≡ some (proxy_principal ctx user roles ts)
unfolding check_mac
check_mac-signed ctx user roles canon sig ts size made =
    let mac = hmac_sha256 ctx.proxy_hmac_key canon in
    let size_is = length-hmac ctx.proxy_hmac_key canon in
    let decoded : b64_decode sig 32 ≡ some mac =
      b64_decode-encode mac sig size 32 (hmac-IsByte ctx.proxy_hmac_key canon) made
        (omega (arith, length-b64_encode mac sig size made, size_is)) (omega (arith, size_is)) in
    let full : (length mac == 32) ≡ true = (==_iff (length mac) 32).1 size_is in
    let right : ct_eq mac mac 32 ≡ true = (ct_eq_iff mac mac 32 size_is size_is).1 refl in
    rw (decoded, full, right) refl

check_signature-signed :
    (ctx : Context) (user roles sig : Bytes) (ts size : ℕ) (made : Option Bytes)
    → sign_canonical ctx size made ≡ some sig
    → check_signature ctx user roles ts made sig ≡ some (proxy_principal ctx user roles ts)
check_signature-signed ctx user roles sig ts size none h = absurd (cc h)
check_signature-signed ctx user roles sig ts size (some canon) h =
    check_mac-signed ctx user roles canon sig ts size h

timestamp-decimal : (ts : ℕ) → 0 < ts → ts < 2 ^ 63 → timestamp (strtoll (decimal ts)) ≡ some ts
timestamp-decimal ts positive small =
    let some_time : (ts == 0) ≡ false = ground (arith, positive) in
    ap (λ t. timestamp (strtoll t)) (sym (append-nil (decimal ts)))
    ∙ ap timestamp (strtoll-decimal ts [] small refl)
    ∙ rw some_time refl

proxy_verify-signed_text :
    (ctx : Context) (user sig : Bytes) (roles : Option Bytes) (ts size clock : ℕ)
    → refused ctx user (roles_or_default roles) ≡ false
    → 0 < ts
    → ts < 2 ^ 63
    → skew (now_sec ctx clock) ts ≤ max_skew ctx
    → proxy_sign ctx user roles (pos ts) size ≡ some sig
    → proxy_verify ctx user roles (decimal ts) sig clock
      ≡ some (proxy_principal ctx user (roles_or_default roles) ts)
unfolding proxy_verify proxy_sign check_time
proxy_verify-signed_text ctx user sig roles ts size clock allowed positive small near h =
    let time : ltb (max_skew ctx) (skew (now_sec ctx clock) ts) ≡ false = ground (arith, near) in
    elim (Bool-cases (length ctx.proxy_hmac_key == 0)) [
      | inl bad ↦ absurd (cc (rw bad at h))
      | inr keyed ↦
          let signed =
            subst (λ t. sign_canonical ctx size (proxy_canonical user roles t 256) ≡ some sig)
              (bounded-decimal ts) (rw keyed at h) in
          rw
            (
              allowed,
              timestamp-decimal ts positive small,
              time,
              proxy_canonical-default user (decimal ts) roles,
            )
            (check_signature-signed ctx user (roles_or_default roles) sig ts size _ signed)
    ]

-- Headers with a user and roles that are not refused and a timestamp that is positive and no further
-- from now than the largest skew are accepted with the signature that `edge_auth_proxy_sign` makes
-- under the same key, and the principal is the user's and expires at the timestamp plus the largest
-- skew; the condition is that this sum fits an `int64_t`.
pub proxy_verify-sign :
    (ctx : Context) (user sig : Bytes) (roles : Option Bytes) (ts size clock : ℕ)
    → refused ctx user (roles_or_default roles) ≡ false
    → 0 < ts
    → ts + max_skew ctx < 2 ^ 63
    → skew (now_sec ctx clock) ts ≤ max_skew ctx
    → proxy_sign ctx user roles (pos ts) size ≡ some sig
    → proxy_verify ctx user roles (decimal ts) sig clock
      ≡ some (record zero_principal {
        authenticated = true;
        sub = bounded 64 user;
        roles = roles_from_csv (some (roles_or_default roles));
        exp = pos (ts + max_skew ctx);
      })
proxy_verify-sign ctx user sig roles ts size clock allowed positive fits near h =
    proxy_verify-signed_text ctx user sig roles ts size clock allowed positive (omega arith) near h
    ∙ rw (int64_of_small (ts + max_skew ctx) fits) refl

-- What a text holds before a newline and behind it.
cut : Bytes → Bytes × Bytes
cut [] = ([], [])
cut (c ∷ s) = let (a, b) = cut s in if c == newline then ([], s) else (c ∷ a, b)

abbrev pub IsLine : Bytes → Type 0
IsLine s = All (λ c. (c == newline) ≡ false) s

cut_line : (a b : Bytes) → IsLine a → cut (a ++ (newline ∷ b)) ≡ (a, b)
unfolding cut
cut_line [] b h = refl
cut_line (c ∷ a) b h =
    rw h.0
      (ap (λ (r : Bytes × Bytes). (let q : Bytes × Bytes = (c ∷ r.0, r.1) in q)) (cut_line a b h.1))

pub clean-IsLine : (s : Bytes) → is_clean s ≡ true → IsLine s
unfolding is_clean
clean-IsLine [] h = tt
clean-IsLine (c ∷ s) h = (ground (arith, h), clean-IsLine s (ground (arith, h)))

-- The canonical text says which user, roles and timestamp it was made of, when the users and the
-- timestamps hold no newline: a signature for some headers is none for others.
pub canonical_text_inj :
    (user1 roles1 ts1 user2 roles2 ts2 : Bytes)
    → IsLine user1
    → IsLine ts1
    → IsLine user2
    → IsLine ts2
    → canonical_text user1 roles1 ts1 ≡ canonical_text user2 roles2 ts2
    → (user1 ≡ user2) × (roles1 ≡ roles2) × (ts1 ≡ ts2)
unfolding cut
canonical_text_inj user1 roles1 ts1 user2 roles2 ts2 hu1 ht1 hu2 ht2 h =
    let outer =
      sym (cut_line ts1 (user1 ++ (newline ∷ roles1)) ht1)
      ∙ ap (λ t. cut ((cut t).1)) h
      ∙ cut_line ts2 (user2 ++ (newline ∷ roles2)) ht2 in
    let inner =
      sym (cut_line user1 roles1 hu1) ∙ ap (λ r. cut (r.1)) outer ∙ cut_line user2 roles2 hu2 in
    (ap (λ r. r.0) inner, ap (λ r. r.1) inner, ap (λ r. r.0) outer)
