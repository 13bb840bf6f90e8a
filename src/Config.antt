-- ===== src/Config.antt =====
-- src/core/edge_config.c and include/edge_config.h: the configuration record, its defaults and its
-- validation. A `char` array is the text that it holds; an `int` flag is a Bool.
pub mod Validity
mod Tests
use edgehost.Prelude.{
  ℕ, ◌*◌, Bool, true, false, not, ◌||◌, [], Option, none, some, ◌==◌, if◌then◌else◌,
}
use edgehost.Prelude.Text.{Bytes, text, bounded, str_eq, is_empty}

pub record Config : Type 0 where
  pub listen_host : Bytes
  pub listen_port : ℕ
  pub spa_root : Bytes
  pub packages_root : Bytes
  pub static_max_file_bytes : ℕ
  pub http_max_body_bytes : ℕ
  pub http_max_pending_outbound : ℕ
  pub http_max_upstream_body_bytes : ℕ
  pub state_net_core_enabled : Bool
  pub state_map_dynamic_enabled : Bool
  pub state_net_pon_enabled : Bool
  pub state_net_home_enabled : Bool
  pub state_electric_enabled : Bool
  pub state_inventory_enabled : Bool
  pub auth_mode : Bytes
  pub auth_lab_password_env : Bytes
  pub auth_session_hmac_key_env : Bytes
  pub auth_proxy_hmac_key_env : Bytes
  pub auth_session_ttl_s : ℕ
  pub auth_proxy_max_skew_s : ℕ
  pub dns_allow_blocking : Bool
  pub openai_enabled : Bool
  pub openai_upstream : Bytes
  pub openai_upstream_addr : Bytes
  pub openai_upstream_host : Bytes
  pub openai_api_key_env : Bytes
  pub openai_service_key_env : Bytes
  pub openai_timeout_ms : ℕ
  pub openai_rate_limit_rpm : ℕ
  pub openai_max_concurrent : ℕ
  pub slack_enabled : Bool
  pub teams_enabled : Bool
  pub tls_cert : Bytes
  pub tls_key : Bytes
  pub tls_client_ca : Bytes
  pub pqproxy_enabled : Bool
  pub pqproxy_metrics_url : Bytes
  pub pqproxy_scrape_interval_ms : ℕ
  pub postgres_notify_enabled : Bool
  pub postgres_listen_channel : Bytes
  pub generation : ℕ

-- Every default is shorter than its array, so that `snprintf` keeps it whole.
unfoldable pub defaults : Config
defaults = record {
  listen_host = text "0.0.0.0";
  listen_port = 8080;
  spa_root = text "./spa";
  packages_root = text "./packages";
  static_max_file_bytes = 64 * 1024;
  http_max_body_bytes = 1024 * 1024;
  http_max_pending_outbound = 256;
  http_max_upstream_body_bytes = 4 * 1024 * 1024;
  state_net_core_enabled = true;
  state_map_dynamic_enabled = true;
  state_net_pon_enabled = false;
  state_net_home_enabled = false;
  state_electric_enabled = false;
  state_inventory_enabled = false;
  auth_mode = text "open";
  auth_lab_password_env = text "EDGEHOST_LAB_PASSWORD";
  auth_session_hmac_key_env = text "EDGEHOST_SESSION_HMAC";
  auth_proxy_hmac_key_env = text "EDGEHOST_PROXY_HMAC";
  auth_session_ttl_s = 28800;
  auth_proxy_max_skew_s = 300;
  dns_allow_blocking = false;
  openai_enabled = false;
  openai_upstream = text "https://api.openai.com";
  openai_upstream_addr = [];
  openai_upstream_host = [];
  openai_api_key_env = text "OPENAI_API_KEY";
  openai_service_key_env = text "EDGEHOST_OPENAI_SERVICE_KEY";
  openai_timeout_ms = 60000;
  openai_rate_limit_rpm = 60;
  openai_max_concurrent = 4;
  slack_enabled = false;
  teams_enabled = false;
  tls_cert = [];
  tls_key = [];
  tls_client_ca = [];
  pqproxy_enabled = false;
  pqproxy_metrics_url = text "http://127.0.0.1:9108/metrics";
  pqproxy_scrape_interval_ms = 5000;
  postgres_notify_enabled = false;
  postgres_listen_channel = text "map_overlay";
  generation = 0;
}

-- An empty mode passes.
unfoldable pub mode_known : Bytes → Bool
mode_known m =
    is_empty m
    || str_eq m (text "open")
    || str_eq m (text "lab_password")
    || str_eq m (text "proxy_headers")

-- `reject` is the early return with a message; `none` is the return of 0.
unfoldable pub complaint : Config → Option Bytes
complaint c =
    if is_empty c.listen_host
    then some (text "listen.host empty")
    else if c.listen_port == 0
    then some (text "listen.port invalid")
    else if c.http_max_body_bytes == 0
    then some (text "http.max_body_bytes must be > 0")
    else if c.http_max_pending_outbound == 0
    then some (text "http.max_pending_outbound must be > 0")
    else if c.http_max_upstream_body_bytes == 0
    then some (text "http.max_upstream_body_bytes must be > 0")
    else if not (mode_known c.auth_mode)
    then some (text "auth.mode invalid (open|lab_password|proxy_headers)")
    else if c.auth_session_ttl_s == 0
    then some (text "auth.session_ttl_s must be > 0")
    else if c.auth_proxy_max_skew_s == 0
    then some (text "auth.proxy_max_skew_s must be > 0")
    else none

-- `if (err && err_len) snprintf(err, err_len, ...)`; `err_len` is 0 for a NULL `err` too.
write_err : ℕ → Bytes → Bytes
write_err err_len msg = if err_len == 0 then [] else bounded err_len msg

-- `true` for 0 and `false` for -1, with the text left in `err`. A NULL config is `none`.
unfoldable pub validate : Option Config → ℕ → Bool × Bytes
unfolding write_err
validate none err_len = (false, write_err err_len (text "null config"))
validate (some c) err_len = elim (complaint c) [
  | none ↦ (true, [])
  | some msg ↦ (false, write_err err_len msg)
]
