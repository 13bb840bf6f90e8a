-- ===== src/Plugin/Complete.antt =====
-- What `edge_plugin_host_complete_outbound` of src/host/plugin_host.c leaves in the pending table.
use edgehost.Prelude.{
  ℕ, ◌≡◌, ◌≢◌, refl, arith, Bool, true, false, Option, none, some, if◌then◌else◌, ap, sym, ◌∙◌,
  subst,
}
use edgehost.Pending
use edgehost.Pending.Invariant.{IsValid}
use edgehost.Pending.Lookup.{by_outbound}
use edgehost.Pending.Release.{Released, by_outbound-Released}
use edgehost.Plugin.{
  Status, done, parked, failed, Response, ClientRequest, Program, returns, requests, reads, writes,
  Host, Vtbl,
}
use edgehost.Plugin.Api.{
  park, may_request, http_client_request, run, store_last_req, state_put, state_get,
}
use edgehost.Plugin.Handlers.{completed, complete_with, handler_at, complete_at, complete_outbound}

-- Outside of `on_http` no request starts.
may_request_idle : (h : Host) → h.active_in_on_http ≡ false → may_request h ≡ false
unfolding may_request
may_request_idle h e = ground (arith, e)

request_idle :
    (h : Host) (req : Option ClientRequest) (alloc : Bool)
    → h.active_in_on_http ≡ false
    → http_client_request h req alloc ≡ (none, h)
unfolding http_client_request
request_idle h none alloc e = refl
request_idle h (some req) alloc e =
    ap
      (λ b.
        if b then park h req (store_last_req h.last req req.method req.url alloc) else (none, h))
      (may_request_idle h e)

-- So a handler that runs there leaves the table.
pub pending-run :
    (p : Program) (h : Host) → h.active_in_on_http ≡ false → (run p h).2.pending ≡ h.pending
unfolding run
pending-run (returns st res) h e = refl
pending-run (requests req alloc k) h e =
    ap (λ (o : Option ℕ × Host). (run (k o.0) o.1).2.pending) (request_idle h req alloc e)
    ∙ pending-run (k none) h e
pending-run (reads ns key room k) h e = pending-run (k (state_get h.state ns key room)) h e
pending-run (writes ns key value k) h e =
    let (stored, state) = state_put h.state ns key value in
    pending-run (k stored) (record h { state = state }) e

pub record Completion (table : Pending.Table) (e : Pending.Entry) (o : Status × Response × Host)
    : Type 0 where
  pub final : o.0 ≢ parked
  pub freed : Released table e (true, o.2.pending)

completed-Completion :
    (table : Pending.Table) (e : Pending.Entry) (st : Status) (res : Response) (h : Host)
    → Released table e (true, h.pending)
    → Completion table e (completed (st, res, h))
completed-Completion table e done res h r = record { final = λ f. absurd (cc f); freed = r }
completed-Completion table e parked res h r = record { final = λ f. absurd (cc f); freed = r }
completed-Completion table e failed res h r = record { final = λ f. absurd (cc f); freed = r }

complete_with-Completion :
    (h : Host) (i : ℕ) (e : Pending.Entry) (res : Response) (handler : Option (Response → Program))
    → h.active_in_on_http ≡ false
    → Released h.pending e (true, Pending.release h.pending i)
    → Completion h.pending e (complete_with h i res handler)
unfolding complete_with
complete_with-Completion h i e res none idle r = record { final = λ f. absurd (cc f); freed = r }
complete_with-Completion h i e res (some f) idle r =
    let (st, res2, w) = run (f res) h in
    completed-Completion h.pending e st res2 (record w { pending = Pending.release w.pending i })
      (subst (λ t. Released h.pending e (true, Pending.release t i))
        (sym (pending-run (f res) h idle)) r)

-- Outside of `on_http`, the answer to an outbound id that is pending ends its request, whatever the
-- plugin's handler does and whether it has one: `edge_plugin_host_complete_outbound` does not return
-- EDGE_PLUGIN_PENDING, the entry's inbound slot and outbound id are found no more, every other lookup is
-- as before, the count falls by one and the table stays valid.
pub complete_outbound-Completion :
    (h : Host) (vtbl_of : ℕ → Option Vtbl) (id : ℕ) (res : Response) (e : Pending.Entry)
    → IsValid h.pending
    → h.active_in_on_http ≡ false
    → by_outbound h.pending id ≡ some e
    → Completion h.pending e (complete_outbound h vtbl_of id res)
unfolding complete_outbound
complete_outbound-Completion h vtbl_of id res e v idle found =
    let (i, at, r) = by_outbound-Released h.pending id e v found in
    subst (λ o. Completion h.pending e (complete_at h vtbl_of res o)) (sym at)
      (complete_with-Completion h i e res (handler_at h vtbl_of i) idle r)
