-- ===== src/Dispatch/Machine/Capacity.antt =====
-- The limits of the queue policy are kept by every move.
use prd_agent.Base.{
  ◌+◌, ◌≤◌, ◌≡◌, String, true, false, ◌&&◌, some, arith, text_key, subst, ◌==◌, Bool-cases, same-eq,
  inl, inr, if◌then◌else◌,
}
use prd_agent.Base.Dict.{get, put, count-put_old, count-put_new}
use prd_agent.Dispatch.Model.{ProductionRun, QueuePolicy, waiting_capacity, queued}
use prd_agent.Dispatch.Runs.{new_run}
use prd_agent.Dispatch.Admission.{is_runnable_run, promoted}
use prd_agent.Dispatch.Machine.{
  Runs, RunMove, cancels, acquires, completes, beats, RunsStep, moves, promotes, starts_queued,
  starts_waiting, Reach, here, next, IsValid, is_consistent, WithinPolicy, runnable_count,
  owner_count, HasRoom,
}
use prd_agent.Dispatch.Machine.Safety.{consistent_at, Reach-IsValid}

-- No move of one run makes it runnable, or gives it another owner.
RunMove-keeps :
    {v w : ProductionRun}
    → RunMove v w
    → is_consistent v ≡ true
    → (is_runnable_run w ≡ true → is_runnable_run v ≡ true) × (w.owner_id ≡ v.owner_id)
RunMove-keeps (cancels v now h) c = ground arith
RunMove-keeps (acquires v worker expires h g) c = ground arith
RunMove-keeps (completes v status h g) c = ground arith
RunMove-keeps (beats v expires g) c = ground arith

-- A write that does not make a run runnable keeps within the policy.
shrinking-WithinPolicy :
    (p : QueuePolicy) (d : Runs) (k : String) (v w : ProductionRun)
    → get k d ≡ some v
    → (is_runnable_run w ≡ true → is_runnable_run v ≡ true)
    → w.owner_id ≡ v.owner_id
    → WithinPolicy p d
    → WithinPolicy p (put k w d)
shrinking-WithinPolicy p d k v w at runnable owner within = record {
  global = ground (arith, count-put_old is_runnable_run k w v d at, within.global);
  per_owner = λ o. ground (
    arith,
    count-put_old (λ run. is_runnable_run run && run.owner_id == o) k w v d at,
    within.per_owner o,
  );
}

-- With room for the owner one more runnable run keeps within the policy.
one_more :
    (p : QueuePolicy) (d e : Runs) (owner : String)
    → HasRoom p d owner
    → WithinPolicy p d
    → runnable_count e ≤ runnable_count d + 1
    → ((o : String) → owner_count o e ≤ owner_count o d + (if owner == o then 1 else 0))
    → WithinPolicy p e
one_more p d e owner room within global per_owner = record {
  global = omega arith;
  per_owner = λ o. elim (Bool-cases (owner == o)) [
    | inl same ↦
        subst (λ x. owner_count x e ≤ p.max_runnable_per_owner) (same-eq owner o same)
          (ground (arith, per_owner owner))
    | inr other ↦ ground (arith, per_owner o, within.per_owner o)
  ];
}

RunsStep-WithinPolicy :
    {p : QueuePolicy} {d e : Runs}
    → RunsStep p d e
    → IsValid d
    → WithinPolicy p d
    → WithinPolicy p e
RunsStep-WithinPolicy {p} (moves d k v w at m) valid within =
    let (runnable, owner) = RunMove-keeps m (consistent_at d k v valid at) in
    shrinking-WithinPolicy p d k v w at runnable owner within
RunsStep-WithinPolicy {p} (promotes d k v at waiting room) valid within =
    one_more p d (put k (promoted v) d) v.owner_id room within
      (ground (arith, count-put_old is_runnable_run k (promoted v) v d at))
      λ o. ground (
        arith,
        count-put_old (λ run. is_runnable_run run && run.owner_id == o) k (promoted v) v d at,
      )
RunsStep-WithinPolicy {p} (starts_queued d k task owner at room) valid within =
    one_more p d _ owner room within
      (ground (arith, count-put_new is_runnable_run k (new_run k task owner queued true) d at))
      λ o. ground (
        arith,
        count-put_new (λ run. is_runnable_run run && run.owner_id == o) k
            (new_run k task owner queued true) d at,
      )
RunsStep-WithinPolicy {p} (starts_waiting d k task owner at) valid within = record {
  global = ground (
    arith,
    count-put_new is_runnable_run k (new_run k task owner waiting_capacity false) d at,
    within.global,
  );
  per_owner = λ o. ground (
    arith,
    count-put_new (λ run. is_runnable_run run && run.owner_id == o) k
        (new_run k task owner waiting_capacity false) d at,
    within.per_owner o,
  );
}

-- No history passes a limit of the queue policy.
pub Reach-WithinPolicy :
    {p : QueuePolicy} {d e : Runs} → Reach p d e → IsValid d → WithinPolicy p d → WithinPolicy p e
Reach-WithinPolicy here valid within = within
Reach-WithinPolicy (next r st) valid within =
    RunsStep-WithinPolicy st (Reach-IsValid r valid) (Reach-WithinPolicy r valid within)
