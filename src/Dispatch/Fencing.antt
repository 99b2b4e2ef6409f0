-- ===== src/Dispatch/Fencing.antt =====
-- Leases of src/prd_agent/production/dispatch.py: who can write the result of a run.
use prd_agent.Base.{
  ℕ, suc, ◌+◌, ◌<◌, ◌≡◌, ap, subst, String, true, false, Option, some, List, arith, text_key,
  nat_key, Option-cases, inl, inr, ok, err, Result,
}
use prd_agent.Base.Dict.{get, get-put_self}
use prd_agent.Dispatch.Model.{
  ProductionRun, ProductionRunStatus, Store, LeaseGrant, Error, lost_lease, is_terminal,
}
use prd_agent.Dispatch.Runs.{
  acquire_run, complete_run, heartbeat, is_current, acquired_by, is_held_by_other,
}
use prd_agent.Dispatch.Step.{Op, history}
use prd_agent.Dispatch.Machine.{IsValid}
use prd_agent.Dispatch.Machine.Safety.{Reach-IsValid, Reach-Persists, Persists}
use prd_agent.Dispatch.Refines.Runs.{acquire_run-Refines}
use prd_agent.Dispatch.Refines.History.{history-Refines}

-- What a grant says of the store before and after.
pub record Acquired (run_id worker : String) (now ttl : ℕ) (s : Store) (g : LeaseGrant) (t : Store)
    : Type 0 where
  pub run : ProductionRun
  pub before : get run_id s.runs ≡ some run
  pub live : is_terminal run.status ≡ false
  pub free : is_held_by_other run worker now ≡ false
  pub after : get run_id t.runs ≡ some (acquired_by worker (now + ttl) run)
  pub grant : g ≡ record {
    run_id = run_id;
    worker_id = worker;
    fencing_token = suc run.fencing_token;
    expires_at = now + ttl;
  }

pub acquire_run-Acquired :
    (run_id worker : String) (now ttl : ℕ) (s : Store) (g : LeaseGrant) (t : Store)
    → acquire_run run_id worker now ttl s ≡ (ok (some g), t)
    → Acquired run_id worker now ttl s g t
unfolding acquire_run
acquire_run-Acquired run_id worker now ttl s g t h = elim (Option-cases (get run_id s.runs)) [
  | inl absent ↦ absurd (ground arith)
  | inr (run, at) ↦ record {
    run = run;
    before = at;
    live = ground arith;
    free = ground arith;
    after = ground (arith, get-put_self run_id (acquired_by worker (now + ttl) run) s.runs);
    grant = ground arith;
  }
]

-- A grant whose token the run has passed is of no use after any further history.
token_passed :
    (g : LeaseGrant) (run : ProductionRun) (status : ProductionRunStatus) (now ttl : ℕ) (s : Store)
    → get g.run_id s.runs ≡ some run
    → g.fencing_token < run.fencing_token
    → is_terminal status ≡ true
    → (complete_run g status s ≡ (err lost_lease, s))
      × (heartbeat g now ttl s ≡ (err lost_lease, s))
unfolding complete_run heartbeat
token_passed g run status now ttl s at passed terminal =
    let stale : is_current g run ≡ false = ground arith in
    (rw (terminal, at, complete_run, stale), rw (at, heartbeat, stale))

acquired-IsValid :
    (run_id worker : String) (now ttl : ℕ) (s t : Store) (r : Result Error (Option LeaseGrant))
    → IsValid s.runs
    → acquire_run run_id worker now ttl s ≡ (r, t)
    → IsValid t.runs
acquired-IsValid run_id worker now ttl s t r valid h =
    subst (λ (x : Result Error (Option LeaseGrant) × Store). IsValid x.1.runs) h
      (Reach-IsValid (acquire_run-Refines run_id worker now ttl s).0 valid)

-- A run that is there persists through every history.
pub history-Persists :
    (ops : List Op) (s : Store) (k : String) (v : ProductionRun)
    → IsValid s.runs
    → get k s.runs ≡ some v
    → (w : ProductionRun) × (get k (history ops s).runs ≡ some w) × Persists v w
history-Persists ops s k v valid at = Reach-Persists k v (history-Refines ops s valid).0 valid at

-- Fencing. Once a run has been acquired again, by whichever worker and after whatever history, the
-- earlier grant is lost for ever: its completion and its heartbeat raise LostLeaseError and change
-- nothing.
pub acquire_run_fences :
    (run_id w₁ w₂ : String) (now₁ ttl₁ now₂ ttl₂ : ℕ) (s t u : Store) (g₁ g₂ : LeaseGrant)
    (between after : List Op) (status : ProductionRunStatus) (now ttl : ℕ)
    → IsValid s.runs
    → acquire_run run_id w₁ now₁ ttl₁ s ≡ (ok (some g₁), t)
    → acquire_run run_id w₂ now₂ ttl₂ (history between t) ≡ (ok (some g₂), u)
    → is_terminal status ≡ true
    → (g₁.fencing_token < g₂.fencing_token)
      × (complete_run g₁ status (history after u) ≡ (err lost_lease, history after u))
      × (heartbeat g₁ now ttl (history after u) ≡ (err lost_lease, history after u))
acquire_run_fences run_id w₁ w₂ now₁ ttl₁ now₂ ttl₂ s t u g₁ g₂ between after status now ttl valid
      e₁ e₂ terminal =
    let a₁ = acquire_run-Acquired run_id w₁ now₁ ttl₁ s g₁ t e₁ in
    let a₂ = acquire_run-Acquired run_id w₂ now₂ ttl₂ (history between t) g₂ u e₂ in
    let valid_t = acquired-IsValid run_id w₁ now₁ ttl₁ s t _ valid e₁ in
    let valid_b = Reach-IsValid (history-Refines between t valid_t).0 valid_t in
    let valid_u = acquired-IsValid run_id w₂ now₂ ttl₂ (history between t) u _ valid_b e₂ in
    let (v, v_at, v_persists) = history-Persists between t run_id _ valid_t a₁.after in
    let (w, w_at, w_persists) = history-Persists after u run_id _ valid_u a₂.after in
    let same : a₂.run ≡ v = cc (v_at, a₂.before) in
    let id : g₁.run_id ≡ run_id = ap (λ (g : LeaseGrant). g.run_id) a₁.grant in
    let token₁ : g₁.fencing_token ≡ suc a₁.run.fencing_token =
      ap (λ (g : LeaseGrant). g.fencing_token) a₁.grant in
    let token₂ : g₂.fencing_token ≡ suc a₂.run.fencing_token =
      ap (λ (g : LeaseGrant). g.fencing_token) a₂.grant in
    let same_token = ap (λ (r : ProductionRun). r.fencing_token) same in
    let lost =
      token_passed g₁ w status now ttl (history after u) (rw id w_at)
        (omega (arith, token₁, same_token, v_persists.token_le, w_persists.token_le)) terminal in
    (omega (arith, token₁, token₂, same_token, v_persists.token_le), lost.0, lost.1)
