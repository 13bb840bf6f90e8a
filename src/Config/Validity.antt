-- ===== src/Config/Validity.antt =====
-- Which configurations `edge_config_validate` accepts.
use edgehost.Prelude.{
  ℕ, ◌≡◌, ◌≢◌, ◌↔◌, ◌⊎◌, inl, inr, refl, true, [], ◌∷◌, none, some, arith, Option-cases,
}
use edgehost.Prelude.Text.{Bytes, text, is_empty, str_eq_iff}
use edgehost.Config.{Config, complaint, validate, mode_known}

is_empty_iff : (s : Bytes) → (is_empty s ≡ true) ↔ (s ≡ [])
is_empty_iff [] = (λ _. refl, λ _. refl)
is_empty_iff (x ∷ s) = (λ h. cc, λ h. cc)

-- The modes that the source knows; an empty one stands for the default.
abbrev pub IsMode : Bytes → Type 0
IsMode m = (m ≡ []) ⊎ (m ≡ text "open") ⊎ (m ≡ text "lab_password") ⊎ (m ≡ text "proxy_headers")

mode_known_iff : (m : Bytes) → (mode_known m ≡ true) ↔ IsMode m
unfolding mode_known
mode_known_iff m = ground (
  arith,
  is_empty_iff m,
  str_eq_iff m (text "open"),
  str_eq_iff m (text "lab_password"),
  str_eq_iff m (text "proxy_headers"),
)

pub record IsValid (c : Config) : Type 0 where
  pub host : c.listen_host ≢ []
  pub port : c.listen_port ≢ 0
  pub body : c.http_max_body_bytes ≢ 0
  pub pending : c.http_max_pending_outbound ≢ 0
  pub upstream : c.http_max_upstream_body_bytes ≢ 0
  pub mode : IsMode c.auth_mode
  pub ttl : c.auth_session_ttl_s ≢ 0
  pub skew : c.auth_proxy_max_skew_s ≢ 0

complaint-none : (c : Config) → (complaint c ≡ none) ↔ IsValid c
unfolding complaint
complaint-none c = (
  λ h. record {
    host = ground (arith, is_empty_iff c.listen_host);
    port = ground arith;
    body = ground arith;
    pending = ground arith;
    upstream = ground arith;
    mode = (mode_known_iff c.auth_mode).0 (ground arith);
    ttl = ground arith;
    skew = ground arith;
  },
  λ v. ground (
    arith,
    is_empty_iff c.listen_host,
    v.host,
    v.port,
    v.body,
    v.pending,
    v.upstream,
    v.ttl,
    v.skew,
    (mode_known_iff c.auth_mode).1 v.mode,
  ),
)

-- `edge_config_validate` returns 0 exactly for the configurations with a host, a port, positive
-- limits and lifetimes and a known mode, and then writes nothing to the error buffer.
pub validate_iff :
    (c : Config) (err_len : ℕ)
    → (((validate (some c) err_len).0 ≡ true) ↔ IsValid c)
      × ((validate (some c) err_len).0 ≡ true → (validate (some c) err_len).1 ≡ [])
unfolding validate
validate_iff c err_len = elim (Option-cases (complaint c)) [
  | inl h ↦ ((λ _. (complaint-none c).0 h, λ _. rw (h, validate)), λ _. rw (h, validate))
  | inr (msg, h) ↦ (
    (λ e. absurd (ground arith), λ v. absurd (ground (arith, (complaint-none c).1 v))),
    λ e. absurd (ground arith),
  )
]
