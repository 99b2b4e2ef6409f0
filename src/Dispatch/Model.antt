-- ===== src/Dispatch/Model.antt =====
-- The data of src/prd_agent/production/dispatch.py: runs, outbox messages, grants, the store.
-- Times are microseconds since a fixed instant, spans of time are microseconds.
use prd_agent.Base.{
  ℕ, String, Bool, true, false, Option, List, [], ltb, if◌then◌else◌, Result, ok, err,
}
use prd_agent.Base.Dict.{Dict}

pub data ProductionRunStatus : Type 0 where
  waiting_capacity waiting_provider queued running waiting_user : ProductionRunStatus
  succeeded failed stopping stopped : ProductionRunStatus

-- status in TERMINAL_RUN_STATUSES
abbrev pub is_terminal : ProductionRunStatus → Bool
is_terminal succeeded = true
is_terminal failed = true
is_terminal stopped = true
is_terminal _ = false

-- status in {QUEUED, RUNNING}
abbrev pub is_runnable : ProductionRunStatus → Bool
is_runnable queued = true
is_runnable running = true
is_runnable _ = false

-- status is QUEUED
abbrev pub is_queued : ProductionRunStatus → Bool
is_queued queued = true
is_queued _ = false

-- status is WAITING_CAPACITY
abbrev pub is_waiting_capacity : ProductionRunStatus → Bool
is_waiting_capacity waiting_capacity = true
is_waiting_capacity _ = false

-- status in {WAITING_CAPACITY, WAITING_PROVIDER, WAITING_USER}
abbrev pub is_waiting : ProductionRunStatus → Bool
is_waiting waiting_capacity = true
is_waiting waiting_provider = true
is_waiting waiting_user = true
is_waiting _ = false

-- status in {FAILED, STOPPED}
abbrev pub is_retryable : ProductionRunStatus → Bool
is_retryable failed = true
is_retryable stopped = true
is_retryable _ = false

-- status in {RUNNING, STOPPING}
abbrev pub is_leased_status : ProductionRunStatus → Bool
is_leased_status running = true
is_leased_status stopping = true
is_leased_status _ = false

pub record RunCommand : Type 0 where
  pub message_id : String
  pub payload_version : ℕ
  pub run_id : String
  pub reason : String

pub record OutboxMessage : Type 0 where
  pub message_id : String
  pub aggregate_id : String
  pub aggregate_version : ℕ
  pub topic : String
  pub payload_version : ℕ
  pub command : RunCommand
  pub available_at : ℕ
  pub attempts : ℕ
  pub published_at : Option ℕ
  pub lease_owner : Option String
  pub lease_expires_at : Option ℕ
  pub quarantined_at : Option ℕ

pub record ProductionRun : Type 0 where
  pub run_id : String
  pub task_id : String
  pub owner_id : String
  pub status : ProductionRunStatus
  pub queue_slot_acquired : Bool
  pub fencing_token : ℕ
  pub lease_owner : Option String
  pub lease_expires_at : Option ℕ
  pub attempt_count : ℕ
  pub cancellation_requested_at : Option ℕ

pub record LeaseGrant : Type 0 where
  pub run_id : String
  pub worker_id : String
  pub fencing_token : ℕ
  pub expires_at : ℕ

pub record QueuePolicy : Type 0 where
  pub max_global_runnable : ℕ
  pub max_runnable_per_owner : ℕ

-- The exceptions that the store raises.
pub data Error : Type 0 where
  key_error permission_error value_error lost_lease stop_iteration : Error

-- QueuePolicy.__post_init__
unfoldable pub queue_policy_of : ℕ → ℕ → Result Error QueuePolicy
queue_policy_of global owner =
    if ltb global 1
    then err value_error
    else if ltb owner 1
    then err value_error
    else ok (record { max_global_runnable = global; max_runnable_per_owner = owner })

-- InMemoryProductionControlStore
pub record Store : Type 0 where
  pub runs : Dict String ProductionRun
  pub outbox : Dict String OutboxMessage
  pub inbox : List (String × String)
  pub command_idempotency : Dict (String × String) (String × String)
  pub queue_policy : QueuePolicy
  pub created_order : Dict String ℕ
  pub next_created_order : ℕ
  pub owner_last_admitted : Dict String ℕ
  pub admission_turn : ℕ

unfoldable pub init : QueuePolicy → Store
init policy = record {
  runs = [];
  outbox = [];
  inbox = [];
  command_idempotency = [];
  queue_policy = policy;
  created_order = [];
  next_created_order = 0;
  owner_last_admitted = [];
  admission_turn = 0;
}
