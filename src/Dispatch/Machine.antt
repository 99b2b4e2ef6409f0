-- ===== src/Dispatch/Machine.antt =====
-- The abstract machine that the control store of src/prd_agent/production/dispatch.py implements:
-- the moves that a run can make, guarded by the room that the queue policy leaves.
pub mod Safety
pub mod Capacity
use prd_agent.Base.{
  ℕ, ◌+◌, ◌≤◌, ◌<◌, ◌≡◌, String, Bool, true, false, ◌&&◌, not, Option, none, some, count, ◌==◌,
  text_key, is_some,
}
use prd_agent.Base.Dict.{Dict, get, put, values, Distinct, AllEntries}
use prd_agent.Dispatch.Model.{
  ProductionRun, ProductionRunStatus, QueuePolicy, is_terminal, is_waiting, waiting_capacity,
  queued, running, succeeded, failed, stopping, stopped,
}
use prd_agent.Dispatch.Admission.{is_runnable_run, promoted}
use prd_agent.Dispatch.Runs.{new_run, cancelled_at, acquired_by, completed_as}

abbrev pub Runs : Type 0
Runs = Dict String ProductionRun

abbrev pub runnable_count : Runs → ℕ
runnable_count d = count is_runnable_run (values d)

abbrev pub owner_count : String → Runs → ℕ
owner_count owner d = count (λ run. is_runnable_run run && run.owner_id == owner) (values d)

-- Both limits leave room for one more run of the owner.
abbrev pub HasRoom : QueuePolicy → Runs → String → Type 0
HasRoom p d owner =
    (runnable_count d < p.max_global_runnable) × (owner_count owner d < p.max_runnable_per_owner)

-- What one run can become.
pub data RunMove : ProductionRun → ProductionRun → Type 0 where
  cancels :
      (v : ProductionRun) (now : ℕ) → is_terminal v.status ≡ false → RunMove v (cancelled_at now v)
  acquires :
      (v : ProductionRun) (worker : String) (expires : ℕ)
      → is_terminal v.status ≡ false
      → is_waiting v.status ≡ false
      → RunMove v (acquired_by worker expires v)
  completes :
      (v : ProductionRun) (status : ProductionRunStatus)
      → is_terminal status ≡ true
      → is_some v.lease_owner ≡ true
      → RunMove v (completed_as status v)
  beats :
      (v : ProductionRun) (expires : ℕ)
      → is_some v.lease_owner ≡ true
      → RunMove v (record v { lease_expires_at = some expires })

-- What one step does to the runs.
pub data RunsStep (p : QueuePolicy) : Runs → Runs → Type 0 where
  moves :
      (d : Runs) (k : String) (v w : ProductionRun)
      → get k d ≡ some v
      → RunMove v w
      → RunsStep p d (put k w d)
  promotes :
      (d : Runs) (k : String) (v : ProductionRun)
      → get k d ≡ some v
      → v.status ≡ waiting_capacity
      → HasRoom p d v.owner_id
      → RunsStep p d (put k (promoted v) d)
  starts_queued :
      (d : Runs) (k task owner : String)
      → get k d ≡ none
      → HasRoom p d owner
      → RunsStep p d (put k (new_run k task owner queued true) d)
  starts_waiting :
      (d : Runs) (k task owner : String)
      → get k d ≡ none
      → RunsStep p d (put k (new_run k task owner waiting_capacity false) d)

pub data Reach (p : QueuePolicy) (d : Runs) : Runs → Type 0 where
  here : Reach p d d
  next : {e f : Runs} → Reach p d e → RunsStep p e f → Reach p d f

pub Reach-trans : {p : QueuePolicy} {d e f : Runs} → Reach p d e → Reach p e f → Reach p d f
Reach-trans r here = r
Reach-trans r (next s st) = next (Reach-trans r s) st

-- How status, slot, lease owner and cancellation go together.
abbrev consistent : ProductionRunStatus → Bool → Option String → Option ℕ → Bool
consistent waiting_capacity slot owner cancelled = not slot && not (is_some owner)
consistent queued slot owner cancelled = slot && not (is_some owner)
consistent running slot owner cancelled = slot && is_some owner
consistent stopping slot owner cancelled = is_some cancelled
consistent succeeded slot owner cancelled = not slot && not (is_some owner)
consistent failed slot owner cancelled = not slot && not (is_some owner)
consistent stopped slot owner cancelled = not slot && not (is_some owner)
consistent _ slot owner cancelled = false

abbrev pub is_consistent : ProductionRun → Bool
is_consistent run =
    consistent run.status run.queue_slot_acquired run.lease_owner run.cancellation_requested_at

-- No key stands twice, each run stands under its id, and each is consistent.
pub record IsValid (d : Runs) : Type 0 where
  pub distinct : Distinct d
  pub keyed : AllEntries (λ k run. run.run_id ≡ k) d
  pub consistent : AllEntries (λ k run. is_consistent run ≡ true) d

-- Neither limit of the queue policy is passed.
pub record WithinPolicy (p : QueuePolicy) (d : Runs) : Type 0 where
  pub global : runnable_count d ≤ p.max_global_runnable
  pub per_owner : (owner : String) → owner_count owner d ≤ p.max_runnable_per_owner
