-- ===== src/Dispatch/Leases.antt =====
-- Leases of src/prd_agent/production/dispatch.py: how long a worker has a run for itself.
mod Preserved
mod Held
use Prim.Native.String.{◌++◌ as text_append}
use prd_agent.Base.{
  ℕ, ◌+◌, ◌≤◌, ◌<◌, ◌≡◌, ◌≢◌, refl, sym, ap, ◌∙◌, subst, String, true, false, none, some, List, [],
  ◌∷◌, arith, text_key, nat_key, pair_key, Bool-cases, Option-cases, Result-cases, inl, inr, ◌⊎◌,
  ◌==◌, ok, err, same-eq, same_ne, ◌&&◌, Result, zero, suc, Option,
}
use text.Mathlib.TextEquality.{eq_iff}
use prd_agent.Base.Dict.{get, put, get-put, get-put_self, get-put_ne}
use prd_agent.Dispatch.Model.{
  ProductionRun, ProductionRunStatus, OutboxMessage, Store, LeaseGrant, Error, is_terminal,
  is_waiting,
}
use prd_agent.Dispatch.Admission.{
  Admitted, promote, promoted, admit_round, admit_loop, release_and_admit_waiting,
  admit_waiting_runs, next_admission,
}
use prd_agent.Dispatch.Outbox.{is_later}
use prd_agent.Dispatch.Runs.{
  create_run_dispatch, dispatch_new, message_of, request_cancellation, retry_new, retry_run,
  record_retry, acquire_run, acquired_by, complete_run, completed_as, heartbeat, is_current,
  is_held_by_other, cancelled_at,
}
use prd_agent.Dispatch.Step.{
  Op, dispatch, claim, published, undelivered, cancel, retry, acquire, complete, admit, renew,
  receive, recover, step, history,
}
use prd_agent.Dispatch.Machine.{IsValid, RunsStep, moves, completes}
use prd_agent.Dispatch.Machine.Safety.{RunsStep-IsValid, Reach-IsValid}
use prd_agent.Dispatch.Refines.Admission.{next_admission-IsCandidate, promote-RunsStep}
use prd_agent.Dispatch.Refines.Outbox.{
  SameRuns, claim_outbox-SameRuns, mark_outbox_published-SameRuns, mark_outbox_failed-SameRuns,
  record_inbox-SameRuns, enqueue_recoveries-SameRuns,
}
use prd_agent.Dispatch.Refines.Runs.{
  current-leased, after_admission_store, acquire_run-Refines, heartbeat-Refines,
}
use prd_agent.Dispatch.Refines.History.{history-Refines}
use prd_agent.Dispatch.Fencing.{Acquired, acquire_run-Acquired}
use Held.{IsHeld, history-IsHeld, acquire_refused}
pub use Held.{Spares, AllSpare}

current-owner :
    (g : LeaseGrant) (run : ProductionRun) (worker : String)
    → g.worker_id ≡ worker
    → is_current g run ≡ true
    → run.lease_owner ≡ some worker
current-owner g run worker own current = elim (Option-cases run.lease_owner) [
  | inl nobody ↦ absurd (ground arith)
  | inr (owner, led) ↦ ground (arith, eq_iff owner g.worker_id)
]

-- How a worker comes to a lease that runs until then: by an acquisition, or by a heartbeat.
pub data Leases (run_id worker : String) (until : ℕ) (s t : Store) : Type 0 where
  by_acquisition :
      (now ttl : ℕ) (g : LeaseGrant)
      → acquire_run run_id worker now ttl s ≡ (ok (some g), t)
      → until ≡ now + ttl
      → Leases run_id worker until s t
  by_heartbeat :
      (now ttl : ℕ) (g renewed : LeaseGrant)
      → g.run_id ≡ run_id
      → g.worker_id ≡ worker
      → heartbeat g now ttl s ≡ (ok renewed, t)
      → until ≡ now + ttl
      → Leases run_id worker until s t

heartbeat-IsHeld :
    (run_id worker : String) (now ttl : ℕ) (g renewed : LeaseGrant) (s t : Store)
    → g.run_id ≡ run_id
    → g.worker_id ≡ worker
    → heartbeat g now ttl s ≡ (ok renewed, t)
    → IsHeld run_id worker (now + ttl) t
unfolding heartbeat
heartbeat-IsHeld run_id worker now ttl g renewed s t id own e =
    elim (Option-cases (get g.run_id s.runs)) [
      | inl absent ↦ absurd (ground arith)
      | inr (run, at) ↦
          let new : ProductionRun = record run { lease_expires_at = some (now + ttl) } in
          let store : t.runs ≡ put g.run_id new s.runs = ground arith in
          let current : is_current g run ≡ true = ground arith in
          record {
            run = new;
            at = rw store (rw (← id) (get-put_self g.run_id new s.runs));
            owner = current-owner g run worker own current;
            expires = now + ttl;
            lease = refl;
            lasts = omega arith;
          }
    ]

Leases-IsHeld :
    (run_id worker : String) (until : ℕ) (s t : Store)
    → Leases run_id worker until s t
    → IsHeld run_id worker until t
Leases-IsHeld run_id worker until s t (by_acquisition now ttl g e ends) =
    let a = acquire_run-Acquired run_id worker now ttl s g t e in
    record {
      run = acquired_by worker (now + ttl) a.run;
      at = a.after;
      owner = refl;
      expires = now + ttl;
      lease = refl;
      lasts = omega arith;
    }
Leases-IsHeld run_id worker until s t (by_heartbeat now ttl g renewed id own e ends) =
    subst (λ n. IsHeld run_id worker n t) (sym ends)
      (heartbeat-IsHeld run_id worker now ttl g renewed s t id own e)

Leases-IsValid :
    (run_id worker : String) (until : ℕ) (s t : Store)
    → Leases run_id worker until s t
    → IsValid s.runs
    → IsValid t.runs
Leases-IsValid run_id worker until s t (by_acquisition now ttl g e ends) valid =
    subst (λ (x : Result Error (Option LeaseGrant) × Store). IsValid x.1.runs) e
      (Reach-IsValid (acquire_run-Refines run_id worker now ttl s).0 valid)
Leases-IsValid run_id worker until s t (by_heartbeat now ttl g renewed id own e ends) valid =
    subst (λ (x : Result Error LeaseGrant × Store). IsValid x.1.runs) e
      (Reach-IsValid (heartbeat-Refines g now ttl s).0 valid)

-- Exclusion. On valid runs, when an acquisition or a heartbeat has given a worker a lease, then
-- after any history in which others try to acquire the run only before its end, what the worker
-- itself acquires or renews lasts as long, and no completion of the run names the worker, an
-- attempt of another worker before that end returns None and changes nothing.
pub acquire_run_exclusive :
    (run_id w₁ w₂ : String) (until now₂ ttl₂ : ℕ) (s t : Store) (ops : List Op)
    → IsValid s.runs
    → Leases run_id w₁ until s t
    → AllSpare run_id w₁ until ops
    → w₂ ≢ w₁
    → now₂ < until
    → acquire_run run_id w₂ now₂ ttl₂ (history ops t) ≡ (ok none, history ops t)
acquire_run_exclusive run_id w₁ w₂ until now₂ ttl₂ s t ops valid lease spare other early =
    let held =
      history-IsHeld run_id w₁ until ops t (Leases-IsValid run_id w₁ until s t lease valid) spare
        (Leases-IsHeld run_id w₁ until s t lease) in
    acquire_refused run_id w₁ until (history ops t) held w₂ now₂ ttl₂ other early
