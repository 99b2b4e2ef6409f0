-- ===== src/Dispatch/Step.antt =====
-- The operations of the control store as one type, and histories of them: any order in which
-- publishers, workers, owners and the reconciler take the store's lock.
use prd_agent.Base.{ℕ, String, List, [], ◌∷◌}
use prd_agent.Dispatch.Model.{LeaseGrant, ProductionRunStatus, Store}
use prd_agent.Dispatch.Admission.{admit_waiting_runs}
use prd_agent.Dispatch.Outbox.{claim_outbox, mark_outbox_published, mark_outbox_failed}
use prd_agent.Dispatch.Runs.{
  create_run_dispatch, request_cancellation, retry_run, acquire_run, complete_run, heartbeat,
  record_inbox,
}
use prd_agent.Dispatch.Recovery.{enqueue_recoveries}

-- Each constructor has the arguments of its method, the texts of new ids first.
pub data Op : Type 0 where
  dispatch : String → String → String → String → String → ℕ → Op
  claim : String → ℕ → ℕ → ℕ → Op
  published : String → String → ℕ → Op
  undelivered : String → String → ℕ → ℕ → Op
  cancel : String → String → ℕ → Op
  retry : String → String → String → String → ℕ → String → String → Op
  acquire : String → String → ℕ → ℕ → Op
  complete : LeaseGrant → ProductionRunStatus → Op
  admit : Op
  renew : LeaseGrant → ℕ → ℕ → Op
  receive : String → String → Op
  recover : (ℕ → String) → ℕ → ℕ → ℕ → Op

-- The store after the operation, whether it returns or raises.
unfoldable pub step : Op → Store → Store
step (dispatch hex run_id task_id owner_id reason now) s =
    (create_run_dispatch hex run_id task_id owner_id reason now s).1
step (claim publisher_id now lease_ttl limit) s =
    (claim_outbox publisher_id now lease_ttl limit s).1
step (published message_id publisher_id now) s =
    (mark_outbox_published message_id publisher_id now s).1
step (undelivered message_id publisher_id now max_attempts) s =
    (mark_outbox_failed message_id publisher_id now max_attempts s).1
step (cancel run_id owner_id now) s = (request_cancellation run_id owner_id now s).1
step (retry run_hex message_hex run_id owner_id now key hash) s =
    (retry_run run_hex message_hex run_id owner_id now key hash s).1
step (acquire run_id worker_id now lease_ttl) s = (acquire_run run_id worker_id now lease_ttl s).1
step (complete grant status) s = (complete_run grant status s).1
step admit s = (admit_waiting_runs s).1
step (renew grant now lease_ttl) s = (heartbeat grant now lease_ttl s).1
step (receive consumer_name message_id) s = record_inbox consumer_name message_id s
step (recover fresh now grace_period limit) s =
    (enqueue_recoveries fresh now grace_period limit s).1

unfoldable pub history : List Op → Store → Store
history [] s = s
history (op ∷ ops) s = history ops (step op s)
