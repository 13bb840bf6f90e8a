-- ===== src/Plugin/Parking.antt =====
-- What a handler that runs parks in the pending table: src/host/plugin_host.c, `api_http_client_request`.
use edgehost.Prelude.{
  ℕ, ◌≡◌, refl, arith, Bool, true, false, Option, none, some, ◌==◌, ==_iff, if◌then◌else◌, ap, sym,
  ◌∙◌, subst, Bool-cases, inl, inr,
}
use edgehost.Pending
use edgehost.State
use edgehost.Pending.{filled}
use edgehost.Pending.Invariant.{IsValid, insert-IsValid}
use edgehost.Pending.Lookup.{by_inbound, find-insert, insert_lem}
use edgehost.Plugin.{ClientRequest, Program, returns, requests, reads, writes, Last, Host}
use edgehost.Plugin.Api.{
  mint, request_of, started, park, may_request, http_client_request, run, store_last_req, state_put,
  state_get,
}

-- Where a handler's run stands: nothing is parked yet, or the entry of its request is.
pub record IsParked (h0 h : Host) (e : Pending.Entry) : Type 0 where
  pub here : by_inbound h.pending h0.active_inbound_slot ≡ some e
  pub elsewhere :
      (s : ℕ)
      → (h0.active_inbound_slot == s) ≡ false
      → by_inbound h.pending s ≡ by_inbound h0.pending s
  pub by_plugin : e.plugin ≡ h0.active_plugin
  pub by_id : e.outbound_id ≡ h.last_outbound_id

pub record Goes (h0 h : Host) : Type 0 where
  pub valid : IsValid h.pending
  pub same_slot : h.active_inbound_slot ≡ h0.active_inbound_slot
  pub same_plugin : h.active_plugin ≡ h0.active_plugin
  pub before : h.client_req_started ≡ false → h.pending ≡ h0.pending
  pub behind : h.client_req_started ≡ true → (e : Pending.Entry) × IsParked h0 h e

-- What is not the table's changes nothing of it.
refit :
    (h0 h : Host) (last : Last) (next : ℕ) (state : Option State.Store)
    → Goes h0 h
    → Goes h0 (record h { last = last; next_outbound_id = next; state = state })
refit h0 h last next state g = record {
  valid = g.valid;
  same_slot = g.same_slot;
  same_plugin = g.same_plugin;
  before = g.before;
  behind = λ on.
      let (e, p) = g.behind on in
      (
        e,
        record { here = p.here; elsewhere = p.elsewhere; by_plugin = p.by_plugin; by_id = p.by_id },
      );
}

same_test : (n : ℕ) → (n == n) ≡ true
same_test n = (==_iff n n).1 refl

started-Goes :
    (h0 w : Host) (req : ClientRequest) (id : ℕ) (b : Bool) (table : Pending.Table)
    → Goes h0 w
    → w.client_req_started ≡ false
    → Pending.insert w.pending (request_of w req id) ≡ (b, table)
    → Goes h0 (started id w (b, table)).1
unfolding filled
started-Goes h0 w req id false table g idle e = record {
  valid =
      subst (λ (o : Bool × Pending.Table). IsValid o.1) e
        (insert-IsValid (request_of w req id) g.valid);
  same_slot = g.same_slot;
  same_plugin = g.same_plugin;
  before = λ off.
      ap (λ (o : Bool × Pending.Table). o.1) (sym e)
      ∙ (insert_lem w.pending (request_of w req id) g.valid).1
          (ap (λ (o : Bool × Pending.Table). o.0) e)
      ∙ g.before off;
  behind = λ on. absurd (cc (sym on ∙ idle));
}
started-Goes h0 w req id true table g idle e =
    let r = request_of w req id in
    let inserted = ap (λ (o : Bool × Pending.Table). o.0) e in
    let table_is = ap (λ (o : Bool × Pending.Table). o.1) (sym e) in
    let found =
      λ (s : ℕ). ap (λ t. by_inbound t s) table_is ∙ (find-insert r g.valid inserted s 0).0 in
    record {
      valid = subst (λ (o : Bool × Pending.Table). IsValid o.1) e (insert-IsValid r g.valid);
      same_slot = g.same_slot;
      same_plugin = g.same_plugin;
      before = λ off. absurd (cc off);
      behind = λ on. (
        filled r,
        record {
          here =
              found h0.active_inbound_slot
              ∙ ap (λ b. if b then some (filled r) else by_inbound w.pending h0.active_inbound_slot)
                  (ap (λ s. s == h0.active_inbound_slot) g.same_slot
                    ∙ same_test h0.active_inbound_slot);
          elsewhere = λ s other.
              found s
              ∙ ap (λ b. if b then some (filled r) else by_inbound w.pending s)
                  (ap (λ t. t == s) g.same_slot ∙ other)
              ∙ ap (λ t. by_inbound t s) (g.before idle);
          by_plugin = g.same_plugin;
          by_id = refl;
        },
      );
    }

may_request-idle : (h : Host) → may_request h ≡ true → h.client_req_started ≡ false
unfolding may_request
may_request-idle h e = ground (arith, e)

-- `api_http_client_request` parks the inbound slot at most once in a run.
park-Goes :
    (h0 h : Host) (req : ClientRequest) (stored : Bool × Last)
    → Goes h0 h
    → h.client_req_started ≡ false
    → Goes h0 (park h req stored).1
park-Goes h0 h req (false, last) g idle = refit h0 h last h.next_outbound_id h.state g
park-Goes h0 h req (true, last) g idle =
    let (id, next) = mint h.next_outbound_id in
    let w : Host = record h { last = last; next_outbound_id = next } in
    started-Goes h0 w req id _ _ (refit h0 h last next h.state g) idle refl

http_client_request-Goes :
    (h0 h : Host) (req : Option ClientRequest) (alloc : Bool)
    → Goes h0 h
    → Goes h0 (http_client_request h req alloc).1
unfolding http_client_request
http_client_request-Goes h0 h none alloc g = g
http_client_request-Goes h0 h (some req) alloc g =
    let stored = store_last_req h.last req req.method req.url alloc in
    elim (Bool-cases (may_request h)) [
      | inr refusal ↦
          subst (λ (o : Option ℕ × Host). Goes h0 o.1)
            (sym (ap (λ b. if b then park h req stored else (none, h)) refusal)) g
      | inl may ↦
          subst (λ (o : Option ℕ × Host). Goes h0 o.1)
            (sym (ap (λ b. if b then park h req stored else (none, h)) may))
            (park-Goes h0 h req stored g (may_request-idle h may))
    ]

-- Whatever a handler does, its run parks nothing but its own slot, and that at most once.
pub run-Goes : (p : Program) (h0 h : Host) → Goes h0 h → Goes h0 (run p h).2
unfolding run
run-Goes (returns st res) h0 h g = g
run-Goes (requests req alloc k) h0 h g =
    let (id, w) = http_client_request h req alloc in
    run-Goes (k id) h0 w (http_client_request-Goes h0 h req alloc g)
run-Goes (reads ns key room k) h0 h g = run-Goes (k (state_get h.state ns key room)) h0 h g
run-Goes (writes ns key value k) h0 h g =
    let (stored, state) = state_put h.state ns key value in
    run-Goes (k stored) h0 (record h { state = state })
      (refit h0 h h.last h.next_outbound_id state g)
