-- ===== src/Plugin/Dispatch.antt =====
-- What `edge_plugin_host_dispatch_http` of src/host/plugin_host.c leaves in the pending table.
use edgehost.Prelude.{
  ℕ, ◌≡◌, ◌≢◌, refl, Bool, true, false, not, ◌||◌, Option, none, some, ◌==◌, if◌then◌else◌, sym,
  subst, inl, inr,
}
use edgehost.Prelude.Text.{text}
use edgehost.Pending
use edgehost.Pending.Invariant.{IsValid}
use edgehost.Pending.Release.{release_inbound-Released}
use edgehost.Pending.Lookup.{by_inbound}
use edgehost.Plugin.{Status, done, parked, failed, Response, Program, Host, Vtbl, set_body}
use edgehost.Plugin.Api.{is_found, run}
use edgehost.Plugin.Handlers.{entered, dispatched, dispatch_http, internal_error}
use edgehost.Plugin.Parking.{Goes, run-Goes}

release_inbound-IsValid :
    (t : Pending.Table) (s : ℕ) → IsValid t → IsValid (Pending.release_inbound t s).1
release_inbound-IsValid t s v = elim (release_inbound-Released t s v) [
  | inl (_, e) ↦ subst (λ (o : Bool × Pending.Table). IsValid o.1) (sym e) v
  | inr (e, _, r) ↦ r.valid
]

-- The entry of a request that is parked.
pub record Parks (table after : Pending.Table) (plugin slot id : ℕ) : Type 0 where
  pub entry : Pending.Entry
  pub here : by_inbound after slot ≡ some entry
  pub elsewhere : (s : ℕ) → (slot == s) ≡ false → by_inbound after s ≡ by_inbound table s
  pub by_plugin : entry.plugin ≡ plugin
  pub by_id : entry.outbound_id ≡ id

pub record Outcome (table : Pending.Table) (plugin slot : ℕ) (o : Status × Response × Host)
    : Type 0 where
  pub valid : IsValid o.2.pending
  pub parks : o.0 ≡ parked → Parks table o.2.pending plugin slot o.2.last_outbound_id

done_ne : done ≢ parked
done_ne h = absurd (cc h)

failed_ne : failed ≢ parked
failed_ne h = absurd (cc h)

dispatched-Outcome :
    (h0 w : Host) (st : Status) (res : Response)
    → Goes h0 w
    → Outcome h0.pending h0.active_plugin h0.active_inbound_slot
        (dispatched h0.active_inbound_slot (st, res, w))
dispatched-Outcome h0 w done res g = record { valid = g.valid; parks = λ e. absurd (done_ne e) }
dispatched-Outcome h0 w failed res g = record { valid = g.valid; parks = λ e. absurd (failed_ne e) }
dispatched-Outcome h0 w parked res g = parked-Outcome w.client_req_started refl
  where
    left : Host
    left = record w { active_in_on_http = false; active_plugin = 0 }

    refusal : Status × Response × Host
    refusal = (
      failed,
      set_body (internal_error res) (text "{\"error\":\"PENDING_WITHOUT_OUTBOUND\"}") 35,
      record left { pending = (Pending.release_inbound w.pending h0.active_inbound_slot).1 },
    )

    parked-Outcome :
        (b : Bool)
        → w.client_req_started ≡ b
        → Outcome h0.pending h0.active_plugin h0.active_inbound_slot
            (if b then (parked, res, left) else refusal)
    parked-Outcome true on =
        let (e, p) = g.behind on in
        record {
          valid = g.valid;
          parks = λ _. record {
            entry = e;
            here = p.here;
            elsewhere = p.elsewhere;
            by_plugin = p.by_plugin;
            by_id = p.by_id;
          };
        }
    parked-Outcome false off = record {
      valid = release_inbound-IsValid w.pending h0.active_inbound_slot g.valid;
      parks = λ e. absurd (failed_ne e);
    }

entered-Goes :
    (h : Host) (plugin slot : ℕ)
    → IsValid h.pending
    → Goes (entered h plugin slot) (entered h plugin slot)
entered-Goes h plugin slot v = record {
  valid = v;
  same_slot = refl;
  same_plugin = refl;
  before = λ off. refl;
  behind = λ on. absurd (cc on);
}

failed-Outcome :
    (h : Host) (plugin slot : ℕ) (res : Response)
    → IsValid h.pending
    → Outcome h.pending plugin slot (failed, res, h)
failed-Outcome h plugin slot res v = record { valid = v; parks = λ e. absurd (failed_ne e) }

handled-Outcome :
    (h : Host) (plugin slot : ℕ) (b c : Bool) (handler : Response → Program) (res nested : Response)
    → IsValid h.pending
    → Outcome h.pending plugin slot (
        if b
        then (failed, res, h)
        else if c
        then (failed, nested, h)
        else dispatched slot (run (handler res) (entered h plugin slot)))
handled-Outcome h plugin slot true c handler res nested v = failed-Outcome h plugin slot res v
handled-Outcome h plugin slot false true handler res nested v =
    failed-Outcome h plugin slot nested v
handled-Outcome h plugin slot false false handler res nested v =
    let (st, res2, w) = run (handler res) (entered h plugin slot) in
    dispatched-Outcome (entered h plugin slot) w st res2 (
      run-Goes (handler res) (entered h plugin slot) (entered h plugin slot)
        (entered-Goes h plugin slot v))

-- Whatever a plugin's handler does, `edge_plugin_host_dispatch_http` keeps the pending table valid, and
-- when it returns EDGE_PLUGIN_PENDING the request's inbound slot is parked under the plugin and the last
-- outbound id, and every other inbound slot finds what it found before.
pub dispatch_http-Outcome :
    (h : Host) (plugin : ℕ) (vtbl : Option Vtbl) (slot : ℕ) (res : Response)
    → IsValid h.pending
    → Outcome h.pending plugin slot (dispatch_http h plugin vtbl slot res)
unfolding dispatch_http
dispatch_http-Outcome h plugin none slot res v = failed-Outcome h plugin slot res v
dispatch_http-Outcome h plugin (some vtbl) slot res v = with_handler vtbl.on_http
  where
    with_handler :
        (o : Option (Response → Program))
        → Outcome h.pending plugin slot (elim o [
          | none ↦ (failed, res, h)
          | some handler ↦
              if plugin == 0 || not vtbl.is_http
              then (failed, res, h)
              else if is_found (Pending.find_inbound h.pending slot)
              then (
                failed,
                set_body (internal_error res) (text "{\"error\":\"NESTED_PENDING\"}") 26,
                h,
              )
              else dispatched slot (run (handler res) (entered h plugin slot))
        ])
    with_handler none = failed-Outcome h plugin slot res v
    with_handler (some handler) =
        handled-Outcome h plugin slot (plugin == 0 || not vtbl.is_http)
          (is_found (Pending.find_inbound h.pending slot)) handler res _ v
