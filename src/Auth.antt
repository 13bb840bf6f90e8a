-- ===== src/Auth.antt =====
-- src/core/auth_rbac.c and include/edge_auth.h: roles, the access decision, and the texts that carry
-- roles, sessions and passwords. Roles are a mask of 32 bits. A pointer that may be NULL is an option;
-- an `int` flag is a Bool.
pub mod Bits
pub mod Base64
pub mod Sha256
pub mod Hmac
pub mod Number
pub mod Session
pub mod Proxy
pub mod Access
pub mod Password
pub mod Cookie
pub mod Csv
pub mod Login
mod Tests
mod SignedTests
use Prim.Native.Nat.{bit_and}
use edgehost.Prelude.{
  ℕ, Bool, true, false, not, ◌&&◌, ◌||◌, List, [], Option, none, some, ◌==◌, if◌then◌else◌, get_or,
}
use edgehost.Prelude.Int.{ℤ, pos}
use edgehost.Prelude.Text.{Bytes, text, str_eq, starts_with}

pub data Mode : Type 0 where
  open_mode lab_password proxy_headers : Mode

abbrev pub employee : ℕ
employee = 1

abbrev pub employee_admin : ℕ
employee_admin = 2

abbrev pub cpe : ℕ
cpe = 4

abbrev pub customer : ℕ
customer = 8

abbrev pub service_openai : ℕ
service_openai = 16

abbrev pub ingest : ℕ
ingest = 32

pub data Decision : Type 0 where
  allow deny : Decision

pub data Resource : Type 0 where
  no_resource state_get state_put state_delete state_list ws_stream packages openai : Resource

pub record Principal : Type 0 where
  pub authenticated : Bool
  pub sub : Bytes
  pub roles : ℕ
  pub exp : ℤ
  pub router_ids : List Bytes
  pub n_router_ids : ℕ

abbrev pub zero_principal : Principal
zero_principal = record {
  authenticated = false;
  sub = [];
  roles = 0;
  exp = pos 0;
  router_ids = [];
  n_router_ids = 0;
}

pub record Context : Type 0 where
  pub mode : Mode
  pub lab_password : Bytes
  pub hmac_key : Bytes
  pub proxy_hmac_key : Bytes
  pub session_ttl_s : ℕ
  pub proxy_max_skew_s : ℕ
  pub now_sec_override : ℕ

-- `edge_auth_ctx_init`
abbrev pub initial_context : Context
initial_context = record {
  mode = open_mode;
  lab_password = [];
  hmac_key = [];
  proxy_hmac_key = [];
  session_ttl_s = 28800;
  proxy_max_skew_s = 300;
  now_sec_override = 0;
}

-- `edge_auth_role_has`
unfoldable pub role_has : ℕ → ℕ → Bool
role_has roles role = not (bit_and roles role == 0)

-- `edge_auth_mode_name`
unfoldable pub mode_name : Mode → Bytes
mode_name open_mode = text "open"
mode_name lab_password = text "lab_password"
mode_name proxy_headers = text "proxy_headers"

-- `edge_auth_resource_name`
unfoldable pub resource_name : Resource → Bytes
resource_name no_resource = text "NONE"
resource_name state_get = text "STATE_GET"
resource_name state_put = text "STATE_PUT"
resource_name state_delete = text "STATE_DELETE"
resource_name state_list = text "STATE_LIST"
resource_name ws_stream = text "WS_STREAM"
resource_name packages = text "PACKAGES"
resource_name openai = text "OPENAI"

-- `edge_auth_role_parse`; 0 is an unknown name.
unfoldable pub role_parse : Bytes → ℕ
role_parse name =
    if str_eq name (text "employee")
    then employee
    else if str_eq name (text "employee_admin")
    then employee_admin
    else if str_eq name (text "cpe")
    then cpe
    else if str_eq name (text "customer")
    then customer
    else if str_eq name (text "service_openai")
    then service_openai
    else if str_eq name (text "ingest")
    then ingest
    else 0

-- The `switch` for employees.
unfoldable pub staff_check : Resource → Decision
staff_check no_resource = deny
staff_check _ = allow

abbrev pub is_openai : Resource → Bool
is_openai openai = true
is_openai _ = false

abbrev pub is_state_put : Resource → Bool
is_state_put state_put = true
is_state_put _ = false

-- `edge_auth_rbac_check`, which ignores its last two arguments; a NULL principal is `none`.
unfoldable pub rbac_check : Option Principal → Resource → Decision
unfolding role_has staff_check
rbac_check none res = deny
rbac_check (some p) res =
    if not p.authenticated
    then deny
    else if role_has p.roles employee || role_has p.roles employee_admin
    then staff_check res
    else if role_has p.roles service_openai
    then (if is_openai res then allow else deny)
    else if role_has p.roles ingest
    then (if is_state_put res then allow else deny)
    else deny

-- `path[i] == '\0'` or one of the characters that end the segment; past the end stands the NUL.
abbrev pub at_char : Bytes → ℕ → ℕ
at_char path i = get_or path i 0

abbrev pub is_stream : Bytes → Bool
is_stream path =
    starts_with (text "/api/v1/stream") path && (at_char path 14 == 0 || at_char path 14 == b'?')

abbrev pub is_state : Bytes → Bool
is_state path = starts_with (text "/api/v1/state/") path

abbrev pub is_packages : Bytes → Bool
is_packages path =
    starts_with (text "/packages") path
    && (at_char path 9 == 0 || at_char path 9 == b'/' || at_char path 9 == b'?')

abbrev pub is_v1 : Bytes → Bool
is_v1 path = starts_with (text "/v1/") path || str_eq path (text "/v1")

-- `edge_auth_classify`
unfoldable pub classify : Option Bytes → Option Bytes → Bool → Resource
classify (some method) (some path) state_is_list =
    if is_stream path
    then (if str_eq method (text "GET") then ws_stream else no_resource)
    else if is_state path && str_eq method (text "GET")
    then (if state_is_list then state_list else state_get)
    else if is_state path && str_eq method (text "PUT")
    then state_put
    else if is_state path && str_eq method (text "DELETE")
    then state_delete
    else if is_packages path && str_eq method (text "GET")
    then packages
    else if is_v1 path
    then openai
    else no_resource
classify method path state_is_list = no_resource

-- `edge_auth_mode_enforced`
unfoldable pub mode_enforced : Mode → Bool
mode_enforced open_mode = false
mode_enforced lab_password = true
mode_enforced proxy_headers = true
