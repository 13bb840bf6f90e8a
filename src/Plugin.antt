-- ===== src/Plugin.antt =====
-- src/host/plugin_host.c, include/edge_plugin.h and include/edge_plugin_host.h: the plugin host and its
-- use of the pending table. A plugin is a number, 0 for NULL. What a plugin's handler does is not code of
-- this file: it is a `Program`, the host calls it makes and what it returns.
pub mod Api
pub mod Routes
pub mod Handlers
pub mod Parking
pub mod Dispatch
pub mod Complete
mod Tests
use edgehost.Prelude.{
  ℕ, Bool, false, not, ◌||◌, List, [], Option, none, some, ltb, if◌then◌else◌, take,
}
use edgehost.Prelude.Text.{Bytes}
use edgehost.Pending
use edgehost.State

pub data Status : Type 0 where
  done parked failed : Status

-- `edge_http_res_t`; `body_len` is the length of `body`, and `has_body` says that the buffer is not NULL.
pub record Response : Type 0 where
  pub status : ℕ
  pub reason : Bytes
  pub content_type : Bytes
  pub has_body : Bool
  pub body : Bytes
  pub body_cap : ℕ

-- `edge_http_res_set_body` of the first `len` bytes of a text that is not NULL.
unfoldable pub set_body : Response → Bytes → ℕ → Response
set_body res bytes len =
    if not res.has_body || ltb res.body_cap len then res else record res { body = take len bytes }

-- `edge_http_client_req_t`; a body that is NULL counts as empty, and so does an array that is.
pub record ClientRequest : Type 0 where
  pub method : Option Bytes
  pub url : Option Bytes
  pub host : Option Bytes
  pub addr_override : Option Bytes
  pub headers : List (Option Bytes × Option Bytes)
  pub body : Bytes
  pub timeout_ms : ℕ
  pub user_tag : ℕ

-- What a handler does: it calls the host, with what it does on the answer, and returns. `log`,
-- `emit_ws_broadcast` and the timers have the same answer always and change nothing of the host.
pub data Program : Type 0 where
  returns : Status → Response → Program
  requests : Option ClientRequest → Bool → (Option ℕ → Program) → Program
  reads : Option Bytes → Option Bytes → ℕ → (Option State.Reply → Program) → Program
  writes : Option Bytes → Option Bytes → Option Bytes → (Bool → Program) → Program

-- The copy of the last accepted request: `last_method` and the other buffers, and what `last_req` says
-- of them.
pub record Last : Type 0 where
  pub method : Bytes
  pub url : Bytes
  pub host : Bytes
  pub addr : Bytes
  pub body : Bytes
  pub body_cap : ℕ
  pub headers : List (Bytes × Bytes)
  pub timeout_ms : ℕ
  pub user_tag : ℕ
  pub has : Bool

pub record Route : Type 0 where
  pub prefix : Bytes
  pub plugin : ℕ

pub record Host : Type 0 where
  pub state : Option State.Store
  pub pending : Pending.Table
  pub plugins : List ℕ
  pub routes : List Route
  pub active_plugin : ℕ
  pub active_inbound_slot : ℕ
  pub active_in_on_http : Bool
  pub client_req_started : Bool
  pub next_outbound_id : ℕ
  pub last : Last
  pub last_outbound_id : ℕ

abbrev pub zero_last : Last
zero_last = record {
  method = [];
  url = [];
  host = [];
  addr = [];
  body = [];
  body_cap = 0;
  headers = [];
  timeout_ms = 0;
  user_tag = 0;
  has = false;
}

abbrev pub host_with : Option State.Store → Option Pending.Table → Option Host
host_with state none = none
host_with state (some table) = some (record {
  state = state;
  pending = table;
  plugins = [];
  routes = [];
  active_plugin = 0;
  active_inbound_slot = 0;
  active_in_on_http = false;
  client_req_started = false;
  next_outbound_id = 1;
  last = zero_last;
  last_outbound_id = 0;
})

-- `edge_plugin_host_create`: the configuration is `max_pending` and the store; `alloc` is the result of
-- `calloc`, and `mem` that of the allocations of `edge_pending_create`.
unfoldable pub host_create : Option (ℕ × Option State.Store) → Bool → Bool → Option Host
host_create none alloc mem =
    if alloc then host_with none (Pending.create Pending.default_cap mem) else none
host_create (some (max_pending, state)) alloc mem =
    let cap = if ltb 0 max_pending then max_pending else Pending.default_cap in
    if alloc then host_with state (Pending.create cap mem) else none

-- `edge_plugin_vtbl_t`: the kind, and the handlers that are not NULL.
pub record Vtbl : Type 0 where
  pub is_http : Bool
  pub on_http : Option (Response → Program)
  pub on_http_complete : Option (Response → Program)
