-- ===== src/Auth/Proxy.antt =====
-- The signed proxy headers of src/core/auth_rbac.c: `edge_auth_proxy_canonical`, `edge_auth_proxy_sign`
-- and `edge_auth_proxy_verify`. `clock` is what `time(NULL)` returns.
pub mod Verify
pub mod RoundTrip
use edgehost.Prelude.{
  ℕ, ◌+◌, ◌-◌, Bool, true, false, not, ◌&&◌, ◌||◌, [], ◌∷◌, ◌++◌, Option, none, some, ltb, leb,
  ◌==◌, if◌then◌else◌, length,
}
use edgehost.Prelude.Int.{ℤ, pos, negsuc, int64}
use edgehost.Prelude.Text.{Bytes, text, is_empty, bounded, decimal}
use edgehost.Auth.{Context, Principal, zero_principal}
use edgehost.Auth.Base64.{b64_encode, b64_decode}
use edgehost.Auth.Csv.{roles_from_csv}
use edgehost.Auth.Hmac.{hmac_sha256, ct_eq}
use edgehost.Auth.Number.{strtoll}
use edgehost.Auth.Session.{now_sec}

abbrev pub newline : ℕ
newline = 10

-- A pointer to a C string that may be NULL, where that and the empty string stand for the default.
abbrev pub roles_or_default : Option Bytes → Bytes
roles_or_default none = text "employee"
roles_or_default (some s) = if is_empty s then text "employee" else s

abbrev pub canonical_text : Bytes → Bytes → Bytes → Bytes
canonical_text user roles ts = text "v1\n" ++ (ts ++ (newline ∷ (user ++ (newline ∷ roles))))

-- `edge_auth_proxy_canonical`; `none` is -1, else the text in `out`, whose length is the result. The
-- pointers `user`, `ts` and `out` are not NULL.
unfoldable pub proxy_canonical : Bytes → Option Bytes → Bytes → ℕ → Option Bytes
proxy_canonical user roles_csv ts out_sz =
    if is_empty user || is_empty ts || ltb out_sz 8
    then none
    else let t = canonical_text user (roles_or_default roles_csv) ts in
      if leb out_sz (length t) then none else some t

-- `%lld`
abbrev pub print_int : ℤ → Bytes
print_int (pos n) = decimal n
print_int (negsuc n) = b'-' ∷ decimal (n + 1)

abbrev pub sign_canonical : Context → ℕ → Option Bytes → Option Bytes
sign_canonical ctx sig_out_sz none = none
sign_canonical ctx sig_out_sz (some canon) =
    b64_encode (hmac_sha256 ctx.proxy_hmac_key canon) sig_out_sz true

-- `edge_auth_proxy_sign`; `none` is -1, else the text in `sig_out`.
unfoldable pub proxy_sign : Context → Bytes → Option Bytes → ℤ → ℕ → Option Bytes
unfolding proxy_canonical
proxy_sign ctx user roles_csv ts sig_out_sz =
    if length ctx.proxy_hmac_key == 0
    then none
    else sign_canonical ctx sig_out_sz
        (proxy_canonical user roles_csv (bounded 32 (print_int ts)) 256)

-- The loop over `user` and the one over `roles_use`: no byte below a blank.
unfoldable pub is_clean : Bytes → Bool
is_clean [] = true
is_clean (c ∷ s) = not (ltb c 0x20 || c == newline || c == 13) && is_clean s

-- `ts` is all of the header and positive.
abbrev pub timestamp : Option (ℤ × Bytes) → Option ℕ
timestamp none = none
timestamp (some (negsuc n, rest)) = none
timestamp (some (pos n, rest)) = if not (is_empty rest) || n == 0 then none else some n

-- `proxy_max_skew_s ? proxy_max_skew_s : 300`
abbrev pub max_skew : Context → ℕ
max_skew ctx = if ctx.proxy_max_skew_s == 0 then 300 else ctx.proxy_max_skew_s

abbrev pub skew : ℕ → ℕ → ℕ
skew now ts = if ltb ts now then now - ts else ts - now

-- The comparison with the decoded signature.
unfoldable pub check_mac : Context → Bytes → Bytes → ℕ → Bytes → Option Bytes → Option Principal
check_mac ctx user roles_use ts canon none = none
check_mac ctx user roles_use ts canon (some sig) =
    if not (length sig == 32)
    then none
    else if not (ct_eq (hmac_sha256 ctx.proxy_hmac_key canon) sig 32)
    then none
    else some (record zero_principal {
      authenticated = true;
      sub = bounded 64 user;
      roles = roles_from_csv (some roles_use);
      exp = int64 (ts + max_skew ctx);
    })

-- The part that follows the canonical text.
abbrev pub check_signature : Context → Bytes → Bytes → ℕ → Option Bytes → Bytes → Option Principal
check_signature ctx user roles_use ts none sig_hdr = none
check_signature ctx user roles_use ts (some canon) sig_hdr =
    check_mac ctx user roles_use ts canon (b64_decode sig_hdr 32)

-- The part that follows the timestamp.
unfoldable pub check_time :
    Context → Bytes → Bytes → Bytes → Bytes → ℕ → Option ℕ → Option Principal
unfolding check_mac
check_time ctx user roles_use ts_hdr sig_hdr clock none = none
check_time ctx user roles_use ts_hdr sig_hdr clock (some ts) =
    if ltb (max_skew ctx) (skew (now_sec ctx clock) ts)
    then none
    else check_signature ctx user roles_use ts (proxy_canonical user (some roles_use) ts_hdr 256)
        sig_hdr

-- The tests before the timestamp is read.
unfoldable pub refused : Context → Bytes → Bytes → Bool
unfolding is_clean
refused ctx user roles_use =
    is_empty user
    || length ctx.proxy_hmac_key == 0
    || leb 64 (length user)
    || not (is_clean user)
    || not (is_clean roles_use)

-- `edge_auth_proxy_verify`: the principal in `*out`; `none` is -1, which leaves `*out` cleared. The
-- pointers other than `roles_hdr` are not NULL.
unfoldable pub proxy_verify : Context → Bytes → Option Bytes → Bytes → Bytes → ℕ → Option Principal
unfolding refused check_time
proxy_verify ctx user roles_hdr ts_hdr sig_hdr clock =
    let roles_use = roles_or_default roles_hdr in
    if refused ctx user roles_use
    then none
    else check_time ctx user roles_use ts_hdr sig_hdr clock (timestamp (strtoll ts_hdr))
