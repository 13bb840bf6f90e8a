-- ===== src/Plugin/Tests.antt =====
-- A plugin that asks an upstream, at concrete inputs.
use edgehost.Prelude.{ℕ, ◌≡◌, refl, true, false, [], ◌∷◌, Option, none, some, replicate, subst}
use edgehost.Prelude.Text.{text, starts_with, bounded}
use edgehost.Prelude.Table.{find_index}
use edgehost.Pending
use edgehost.Pending.Lookup.{by_outbound}
use edgehost.Pending.Invariant.{IsValid, create-IsValid, insert-IsValid}
use edgehost.Plugin.{
  done, parked, failed, Response, set_body, ClientRequest, Program, returns, requests, zero_last,
  Host, host_create, Vtbl,
}
use edgehost.Plugin.Api.{store_last_req, may_request, http_client_request, run}
use edgehost.Plugin.Routes.{register, add_route, route_matches, best_route, match_route}
use edgehost.Plugin.Handlers.{dispatch_http, complete_outbound}
use edgehost.Plugin.Dispatch.{Outcome, dispatch_http-Outcome}
use edgehost.Plugin.Complete.{Completion, complete_outbound-Completion}

abbrev four_slots : Pending.Table
four_slots = record { slots = replicate 4 Pending.zero_entry; cap = 4; count = 0 }

abbrev host : Host
host = record {
  state = none;
  pending = four_slots;
  plugins = [];
  routes = [];
  active_plugin = 0;
  active_inbound_slot = 0;
  active_in_on_http = false;
  client_req_started = false;
  next_outbound_id = 1;
  last = zero_last;
  last_outbound_id = 0;
}

abbrev no_response : Response
no_response = record {
  status = 0;
  reason = [];
  content_type = [];
  has_body = true;
  body = [];
  body_cap = 64;
}

abbrev upstream : ClientRequest
upstream = record {
  method = some (text "GET");
  url = some (text "https://a/b");
  host = none;
  addr_override = none;
  headers = [];
  body = [];
  timeout_ms = 5;
  user_tag = 9;
}

-- A handler that asks and then waits, and one that claims to wait without asking.
abbrev asks : Option ℕ → Response → Program
asks none res = returns failed res
asks (some id) res = returns parked res

abbrev asking : Vtbl
asking = record {
  is_http = true;
  on_http = some (λ res. requests (some upstream) true (λ id. asks id res));
  on_http_complete = some (λ res. returns done (record res { status = 200 }));
}

abbrev lazy : Vtbl
lazy = record {
  is_http = true;
  on_http = some (λ res. returns parked res);
  on_http_complete = none;
}

abbrev parked_table : Pending.Table
parked_table = record {
  slots =
      (record Pending.zero_entry {
        used = true;
        inbound_slot = 3;
        outbound_id = 1;
        plugin = 7;
        user_tag = 9;
        timeout_ms = 5;
      })
      ∷ replicate 3 Pending.zero_entry;
  cap = 4;
  count = 1;
}

-- The body is one byte short: the closing brace is missing.
lazy_is_refused :
    (dispatch_http host 7 (some lazy) 3 no_response).1.body
    ≡ text "{\"error\":\"PENDING_WITHOUT_OUTBOUND\""
unfolding dispatch_http run set_body Pending.find_inbound Pending.release_inbound find_index
lazy_is_refused = refl

host_without_store : host_create (some (4, none)) true true ≡ some host
unfolding host_create Pending.create
host_without_store = refl

asking_is_parked : (dispatch_http host 7 (some asking) 3 no_response).0 ≡ parked
unfolding dispatch_http run http_client_request may_request store_last_req bounded
    Pending.find_inbound Pending.full Pending.insert Pending.scan find_index
asking_is_parked = refl

made_slots : Pending.create 4 true ≡ some four_slots
unfolding Pending.create
made_slots = refl

four_slots-IsValid : IsValid four_slots
four_slots-IsValid = (create-IsValid 4 made_slots).0

dispatch_http-Outcome_example :
    Outcome four_slots 7 3 (dispatch_http host 7 (some asking) 3 no_response)
dispatch_http-Outcome_example =
    dispatch_http-Outcome host 7 (some asking) 3 no_response four_slots-IsValid

abbrev parked_request : Pending.Request
parked_request = record {
  inbound_slot = 3;
  outbound_id = 1;
  plugin = 7;
  user_tag = 9;
  timeout_ms = 5;
  started_ms = 0;
  principal_sub = none;
}

parked_table_lem : (Pending.insert four_slots parked_request).1 ≡ parked_table
unfolding Pending.insert Pending.scan Pending.filled Pending.sub_field
parked_table_lem = refl

parked_table-IsValid : IsValid parked_table
parked_table-IsValid =
    subst IsValid parked_table_lem (insert-IsValid parked_request four_slots-IsValid)

abbrev waiting : Host
waiting = record host { pending = parked_table; next_outbound_id = 2; last_outbound_id = 1 }

abbrev parked_entry : Pending.Entry
parked_entry = record Pending.zero_entry {
  used = true;
  inbound_slot = 3;
  outbound_id = 1;
  plugin = 7;
  user_tag = 9;
  timeout_ms = 5;
}

parked_entry_lem : by_outbound parked_table 1 ≡ some parked_entry
unfolding Pending.find_outbound find_index
parked_entry_lem = refl

complete_outbound-Completion_example :
    Completion parked_table parked_entry
      (complete_outbound waiting (λ _. some asking) 1 no_response)
complete_outbound-Completion_example =
    complete_outbound-Completion waiting (λ _. some asking) 1 no_response parked_entry
      parked_table-IsValid refl parked_entry_lem

abbrev routed : Host
routed = (add_route (add_route host (some (text "/v1")) 7).1 (some (text "/v1/chat")) 8).1

longest_prefix :
    (match_route routed (some (text "/v1/chat/x")) ≡ 8)
    × (match_route routed (some (text "/v1/models")) ≡ 7)
    × (match_route routed (some (text "/v10")) ≡ 0)
unfolding match_route best_route route_matches starts_with add_route
longest_prefix = (refl, refl, refl)

registered : (register host 7 (some (returns done no_response))).0 ≡ true
unfolding register run
registered = refl
