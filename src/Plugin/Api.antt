-- ===== src/Plugin/Api.antt =====
-- The host calls of src/host/plugin_host.c that a plugin makes, and the run of a handler.
use edgehost.Prelude.{
  ℕ, ◌+◌, ◌%◌, ◌^◌, Bool, true, false, not, ◌&&◌, [], Option, none, some, ltb, ◌==◌, if◌then◌else◌,
  length, take, map,
}
use edgehost.Prelude.Text.{Bytes, bounded}
use edgehost.Pending
use edgehost.State
use edgehost.Plugin.{
  Status, Response, ClientRequest, Program, Last, Host, returns, requests, reads, writes,
}

abbrev pub text_or_empty : Option Bytes → Bytes
text_or_empty none = []
text_or_empty (some s) = s

abbrev pub bounded_header : Option Bytes × Option Bytes → Bytes × Bytes
bounded_header (name, value) = (bounded 64 (text_or_empty name), bounded 384 (text_or_empty value))

-- The strings of `store_last_req`, which are copied first.
abbrev pub with_strings : Last → ClientRequest → Bytes → Bytes → Last
with_strings l req method url = record l {
  method = bounded 16 method;
  url = bounded 512 url;
  host = bounded 256 (text_or_empty req.host);
  addr = bounded 64 (text_or_empty req.addr_override);
}

abbrev pub with_rest : Last → ClientRequest → Last
with_rest l req = record l {
  body = req.body;
  body_cap = if ltb l.body_cap (length req.body) then length req.body else l.body_cap;
  headers = map bounded_header (take 8 req.headers);
  timeout_ms = req.timeout_ms;
  user_tag = req.user_tag;
  has = true;
}

-- `store_last_req`; false is -1, and `alloc` the result of `realloc`.
unfoldable pub store_last_req :
    Last → ClientRequest → Option Bytes → Option Bytes → Bool → Bool × Last
store_last_req l req (some method) (some url) alloc =
    let copied = with_strings l req method url in
    if ltb l.body_cap (length req.body) && not alloc
    then (false, copied)
    else (true, with_rest copied req)
store_last_req l req method url alloc = (false, l)

-- `api_state_get`: the reply when the code is 0.
abbrev pub reply_ok : State.Reply → Option State.Reply
reply_ok r = elim r.code [ State.Err.ok ↦ some r | _ ↦ none ]

abbrev pub state_get : Option State.Store → Option Bytes → Option Bytes → ℕ → Option State.Reply
state_get none ns key room = none
state_get (some st) ns key room = reply_ok (State.get st ns key (some room))

abbrev pub is_ok : State.Err → Bool
is_ok e = elim e [ State.Err.ok ↦ true | _ ↦ false ]

-- `api_state_put`; false is -1.
abbrev pub state_put :
    Option State.Store → Option Bytes → Option Bytes → Option Bytes → Bool × Option State.Store
state_put none ns key value = (false, none)
state_put (some st) ns key value =
    let (code, st2) = State.put st ns key value in (is_ok code, some st2)

-- `h->next_outbound_id++`, again when it was 0: the id and the next one.
abbrev pub mint : ℕ → ℕ × ℕ
mint n = let next = (n + 1) % 2 ^ 64 in if n == 0 then (next, (next + 1) % 2 ^ 64) else (n, next)

abbrev pub request_of : Host → ClientRequest → ℕ → Pending.Request
request_of h req id = record {
  inbound_slot = h.active_inbound_slot;
  outbound_id = id;
  plugin = h.active_plugin;
  user_tag = req.user_tag;
  timeout_ms = req.timeout_ms;
  started_ms = 0;
  principal_sub = none;
}

abbrev pub started : ℕ → Host → Bool × Pending.Table → Option ℕ × Host
started id h (false, table) = (none, record h { pending = table })
started id h (true, table) =
    (some id, record h { pending = table; client_req_started = true; last_outbound_id = id })

abbrev pub park : Host → ClientRequest → Bool × Last → Option ℕ × Host
park h req (false, last) = (none, record h { last = last })
park h req (true, last) =
    let (id, next) = mint h.next_outbound_id in
    let w = record h { last = last; next_outbound_id = next } in
    started id w (Pending.insert w.pending (request_of w req id))

abbrev pub is_found : Option ℕ → Bool
is_found none = false
is_found (some i) = true

-- The guards of `api_http_client_request`.
unfoldable pub may_request : Host → Bool
may_request h =
    h.active_in_on_http
    && not (h.active_plugin == 0)
    && not h.client_req_started
    && not (Pending.full h.pending)
    && not (is_found (Pending.find_inbound h.pending h.active_inbound_slot))

-- `api_http_client_request`: the id in `*out_id`; `none` is -1. `out_id` is not NULL.
unfoldable pub http_client_request : Host → Option ClientRequest → Bool → Option ℕ × Host
unfolding may_request store_last_req
http_client_request h none alloc = (none, h)
http_client_request h (some req) alloc =
    if may_request h
    then park h req (store_last_req h.last req req.method req.url alloc)
    else (none, h)

-- A handler's run, with the host that it leaves.
unfoldable pub run : Program → Host → Status × Response × Host
unfolding http_client_request
run (returns st res) h = (st, res, h)
run (requests req alloc k) h = let (id, w) = http_client_request h req alloc in run (k id) w
run (reads ns key room k) h = run (k (state_get h.state ns key room)) h
run (writes ns key value k) h =
    let (stored, state) = state_put h.state ns key value in
    run (k stored) (record h { state = state })

-- `edge_plugin_host_last_client_req`
abbrev pub last_client_req : Host → Option Last
last_client_req h = if h.last.has then some h.last else none
