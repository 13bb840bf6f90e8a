-- ===== src/Plugin/Handlers.antt =====
-- `edge_plugin_host_dispatch_http`, `_complete_outbound` and `_cancel_inbound` of src/host/plugin_host.c.
use edgehost.Prelude.{
  ℕ, Bool, true, false, not, ◌||◌, Option, none, some, ◌==◌, if◌then◌else◌, get_or,
}
use edgehost.Prelude.Text.{text}
use edgehost.Pending
use edgehost.Plugin.{Status, Response, set_body, Program, Host, Vtbl, done, parked, failed}
use edgehost.Plugin.Api.{is_found, run}

abbrev pub internal_error : Response → Response
internal_error res = record res { status = 500; reason = text "Internal Server Error" }

-- What `edge_plugin_host_dispatch_http` does with what the handler returned.
abbrev pub dispatched : ℕ → Status × Response × Host → Status × Response × Host
dispatched slot (st, res, h) =
    let w = record h { active_in_on_http = false; active_plugin = 0 } in
    elim st [
      | done ↦ (done, res, w)
      | failed ↦ (failed, (if res.status == 0 then internal_error res else res), w)
      | parked ↦ if w.client_req_started then (parked, res, w) else (
        failed,
        set_body (internal_error res) (text "{\"error\":\"PENDING_WITHOUT_OUTBOUND\"}") 35,
        record w { pending = (Pending.release_inbound w.pending slot).1 },
      )
    ]

abbrev pub entered : Host → ℕ → ℕ → Host
entered h plugin slot = record h {
  active_plugin = plugin;
  active_inbound_slot = slot;
  active_in_on_http = true;
  client_req_started = false;
}

-- `edge_plugin_host_dispatch_http` for a request on an inbound slot, with the plugin's table.
unfoldable pub dispatch_http : Host → ℕ → Option Vtbl → ℕ → Response → Status × Response × Host
unfolding run
dispatch_http h plugin none slot res = (failed, res, h)
dispatch_http h plugin (some vtbl) slot res = elim vtbl.on_http [
  | none ↦ (failed, res, h)
  | some handler ↦
      if plugin == 0 || not vtbl.is_http
      then (failed, res, h)
      else if is_found (Pending.find_inbound h.pending slot)
      then (failed, set_body (internal_error res) (text "{\"error\":\"NESTED_PENDING\"}") 26, h)
      else dispatched slot (run (handler res) (entered h plugin slot))
]

abbrev pub completed : Status × Response × Host → Status × Response × Host
completed (st, res, h) = elim st [
  | done ↦ (done, res, h)
  | parked ↦ (failed, set_body (internal_error res) (text "{\"error\":\"DOUBLE_PENDING\"}") 25, h)
  | failed ↦ (
    failed,
    (if res.status == 0 then record res { status = 502; reason = text "Bad Gateway" } else res),
    h,
  )
]

abbrev pub released : ℕ → Status × Response × Host → Status × Response × Host
released i (st, res, h) = (st, res, record h { pending = Pending.release h.pending i })

abbrev pub complete_handler : Option Vtbl → Option (Response → Program)
complete_handler none = none
complete_handler (some vtbl) = vtbl.on_http_complete

abbrev pub plugin_at : Pending.Table → ℕ → ℕ
plugin_at t i = (get_or t.slots i Pending.zero_entry).plugin

-- What `edge_plugin_host_complete_outbound` does with the entry in slot `i`.
unfoldable pub complete_with :
    Host → ℕ → Response → Option (Response → Program) → Status × Response × Host
unfolding run
complete_with h i res none = (
  failed,
  set_body (record res { status = 500 }) (text "{\"error\":\"NO_COMPLETE_HANDLER\"}") 30,
  record h { pending = Pending.release h.pending i },
)
complete_with h i res (some handler) = completed (released i (run (handler res) h))

-- The completion handler of the plugin of the entry in slot `i`.
abbrev pub handler_at : Host → (ℕ → Option Vtbl) → ℕ → Option (Response → Program)
handler_at h vtbl_of i =
    let plugin = plugin_at h.pending i in
    if plugin == 0 then none else complete_handler (vtbl_of plugin)

abbrev pub complete_at : Host → (ℕ → Option Vtbl) → Response → Option ℕ → Status × Response × Host
complete_at h vtbl_of res none = (failed, res, h)
complete_at h vtbl_of res (some i) = complete_with h i res (handler_at h vtbl_of i)

-- `edge_plugin_host_complete_outbound` for the answer to an outbound id; `vtbl_of` gives a plugin's table.
unfoldable pub complete_outbound :
    Host → (ℕ → Option Vtbl) → ℕ → Response → Status × Response × Host
unfolding complete_with
complete_outbound h vtbl_of outbound_id res =
    complete_at h vtbl_of res (Pending.find_outbound h.pending outbound_id)

-- `edge_plugin_host_cancel_inbound`
abbrev pub cancel_inbound : Host → ℕ → Bool × Host
cancel_inbound h slot =
    let (found, table) = Pending.release_inbound h.pending slot in
    (found, record h { pending = table })
