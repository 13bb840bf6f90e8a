-- ===== src/Pending/Run.antt =====
-- Any sequence of calls of the pending table's interface.
use edgehost.Prelude.{ℕ, ◌≡◌, List, [], ◌∷◌, some, Bool, true, inl, inr, subst, sym}
use edgehost.Pending.{Table, Request, create, insert, release, release_inbound, release_outbound}
use edgehost.Pending.Invariant.{IsValid, create-IsValid, insert-IsValid, release-IsValid}
use edgehost.Pending.Release.{release_outbound-Released, release_inbound-Released}

pub data Call : Type 0 where
  inserts : Request → Call
  releases releases_outbound releases_inbound : ℕ → Call

pub step : Table → Call → Table
step t (inserts r) = (insert t r).1
step t (releases i) = release t i
step t (releases_outbound id) = (release_outbound t id).1
step t (releases_inbound s) = (release_inbound t s).1

pub run : Table → List Call → Table
run t [] = t
run t (c ∷ cs) = run (step t c) cs

step-IsValid : (t : Table) (c : Call) → IsValid t → IsValid (step t c)
unfolding step
step-IsValid t (inserts r) v = insert-IsValid r v
step-IsValid t (releases i) v = release-IsValid i v
step-IsValid t (releases_outbound id) v = elim (release_outbound-Released t id v) [
  | inl (_, e) ↦ subst (λ (o : Bool × Table). IsValid o.1) (sym e) v
  | inr (e, _, r) ↦ r.valid
]
step-IsValid t (releases_inbound s) v = elim (release_inbound-Released t s v) [
  | inl (_, e) ↦ subst (λ (o : Bool × Table). IsValid o.1) (sym e) v
  | inr (e, _, r) ↦ r.valid
]

run-IsValid : (t : Table) (cs : List Call) → IsValid t → IsValid (run t cs)
unfolding run
run-IsValid t [] v = v
run-IsValid t (c ∷ cs) v = run-IsValid (step t c) cs (step-IsValid t c v)

-- Whatever is called on a table that `edge_pending_create` made, in whatever order: the count is
-- the number of used slots, no two used slots share an inbound slot or an outbound id, and every
-- used slot has a plugin and an outbound id other than 0.
pub run-create-IsValid :
    (n : ℕ) {t : Table} (cs : List Call) → create n true ≡ some t → IsValid (run t cs)
run-create-IsValid n {t} cs e = run-IsValid t cs (create-IsValid n e).0
