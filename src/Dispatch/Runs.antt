-- ===== src/Dispatch/Runs.antt =====
-- The life of a run in src/prd_agent/production/dispatch.py: `create_run_dispatch`, `get_run`,
-- `list_runs`, `request_cancellation`, `retry_run`, `acquire_run`, `complete_run`, `heartbeat`,
-- `record_inbox`, `has_inbox`. A hex text stands for each call of `uuid.uuid4().hex`.
use Prim.Native.String.{◌++◌ as text_append}
use prd_agent.Base.{
  nat_key, text_key, pair_key, ℕ, suc, ◌+◌, String, Bool, false, ◌&&◌, not, Option, none, some,
  List, ◌∷◌, any, filter, find, ◌==◌, text_le, holds, is_some, if◌then◌else◌, Result, ok, err,
  or_raise,
}
use prd_agent.Base.Dict.{get, put, values}
use prd_agent.Base.Sort.{sorted}
use prd_agent.Dispatch.Model.{
  ProductionRun, ProductionRunStatus, OutboxMessage, LeaseGrant, Store, Error, key_error,
  permission_error, value_error, lost_lease, stop_iteration, queued, waiting_capacity, stopping,
  running, is_terminal, is_waiting, is_retryable,
}
use prd_agent.Dispatch.Admission.{can_admit, release_and_admit_waiting}
use prd_agent.Dispatch.Outbox.{is_later}

-- A call's result and the store after it.
abbrev pub Returns : Type 0 → Type 0
Returns A = Result Error A × Store

-- The message of a new command.
unfoldable pub message_of : String → String → ℕ → String → ℕ → OutboxMessage
message_of hex run_id version reason now =
    let message_id = text_append "outbox-" hex in
    record {
      message_id = message_id;
      aggregate_id = run_id;
      aggregate_version = version;
      topic = "agent.run";
      payload_version = 1;
      command = record {
        message_id = message_id;
        payload_version = 1;
        run_id = run_id;
        reason = reason;
      };
      available_at = now;
      attempts = 0;
      published_at = none;
      lease_owner = none;
      lease_expires_at = none;
      quarantined_at = none;
    }

abbrev pub new_run : String → String → String → ProductionRunStatus → Bool → ProductionRun
new_run run_id task_id owner_id status slot = record {
  run_id = run_id;
  task_id = task_id;
  owner_id = owner_id;
  status = status;
  queue_slot_acquired = slot;
  fencing_token = 0;
  lease_owner = none;
  lease_expires_at = none;
  attempt_count = 0;
  cancellation_requested_at = none;
}

-- The branch of `create_run_dispatch` for a run that is not there.
unfoldable pub dispatch_new : String → String → String → OutboxMessage → Store → Store
dispatch_new run_id task_id owner_id message s =
    let admitted = can_admit s owner_id in
    let turn = if admitted then suc s.admission_turn else s.admission_turn in
    record s {
      next_created_order = suc s.next_created_order;
      created_order = put run_id (suc s.next_created_order) s.created_order;
      admission_turn = turn;
      owner_last_admitted =
          if admitted then put owner_id turn s.owner_last_admitted else s.owner_last_admitted;
      runs =
          put run_id
            (new_run run_id task_id owner_id (if admitted then queued else waiting_capacity)
              admitted)
            s.runs;
      outbox = put message.message_id message s.outbox;
    }

unfoldable pub create_run_dispatch :
    String → String → String → String → String → ℕ → Store → Returns OutboxMessage
create_run_dispatch hex run_id task_id owner_id reason now s = elim (get run_id s.runs) [
  | some existing ↦
      (or_raise (find (λ value. value.aggregate_id == run_id) (values s.outbox)) stop_iteration, s)
  | none ↦
      let message = message_of hex run_id 1 reason now in
      (ok message, dispatch_new run_id task_id owner_id message s)
]

unfoldable pub get_run : String → Store → Result Error ProductionRun
get_run run_id s = or_raise (get run_id s.runs) key_error

-- sorted(…, key=run_id, reverse=True): descending, stable
unfoldable pub list_runs : String → String → Store → List ProductionRun
list_runs task_id owner_id s =
    filter (λ value. value.task_id == task_id && value.owner_id == owner_id)
      (sorted (λ a b. text_le b.run_id a.run_id) (values s.runs))

abbrev pub or_else {ℓ} : {A : Type ℓ} → Option A → A → A
or_else none a = a
or_else (some b) a = b

abbrev pub cancelled_at : ℕ → ProductionRun → ProductionRun
cancelled_at now run = record run {
  status = stopping;
  cancellation_requested_at = some (or_else run.cancellation_requested_at now);
}

unfoldable pub request_cancellation : String → String → ℕ → Store → Returns ProductionRun
request_cancellation run_id owner_id now s = elim (get run_id s.runs) [
  | none ↦ (err key_error, s)
  | some run ↦
      if not (run.owner_id == owner_id)
      then (err permission_error, s)
      else if is_terminal run.status
      then (ok run, s)
      else (ok (cancelled_at now run), record s { runs = put run_id (cancelled_at now run) s.runs })
]

-- The end of `retry_run`: the key is recorded, and the new run is read back.
unfoldable pub record_retry : String → String → String → String → Store → Returns ProductionRun
record_retry owner_id key hash run_id s =
    let s' = record s {
      command_idempotency = put (owner_id, key) (hash, run_id) s.command_idempotency;
    } in
    (get_run run_id s', s')

unfoldable pub retry_new :
    String → String → String → ℕ → String → String → ProductionRun → Store → Returns ProductionRun
retry_new run_hex message_hex owner_id now key hash previous s =
    let new_run_id = text_append "run-" run_hex in
    let (created, s') =
      create_run_dispatch message_hex new_run_id previous.task_id owner_id "RETRY" now s in
    elim created [ err e ↦ (err e, s') | ok message ↦ record_retry owner_id key hash new_run_id s' ]

unfoldable pub retry_run :
    String → String → String → String → ℕ → String → String → Store → Returns ProductionRun
retry_run run_hex message_hex run_id owner_id now key hash s =
    elim (get (owner_id, key) s.command_idempotency) [
      | some (replay_hash, replay_run_id) ↦
          if not (replay_hash == hash) then (err value_error, s) else (get_run replay_run_id s, s)
      | none ↦ elim (get run_id s.runs) [
        | none ↦ (err key_error, s)
        | some previous ↦
            if not (previous.owner_id == owner_id)
            then (err key_error, s)
            else if not (is_retryable previous.status)
            then (err value_error, s)
            else retry_new run_hex message_hex owner_id now key hash previous s
      ]
    ]

-- Another worker holds the lease, and it has not run out.
abbrev pub is_held_by_other : ProductionRun → String → ℕ → Bool
is_held_by_other run worker_id now =
    is_some run.lease_owner
    && (not (holds run.lease_owner worker_id) && is_later run.lease_expires_at now)

abbrev pub acquired_by : String → ℕ → ProductionRun → ProductionRun
acquired_by worker_id expires_at run = record run {
  status = if is_some run.cancellation_requested_at then stopping else running;
  fencing_token = suc run.fencing_token;
  lease_owner = some worker_id;
  lease_expires_at = some expires_at;
  attempt_count = suc run.attempt_count;
}

unfoldable pub acquire_run : String → String → ℕ → ℕ → Store → Returns (Option LeaseGrant)
acquire_run run_id worker_id now lease_ttl s = elim (get run_id s.runs) [
  | none ↦ (err key_error, s)
  | some run ↦
      if is_terminal run.status
      then (ok none, s)
      else if is_waiting run.status
      then (ok none, s)
      else if is_held_by_other run worker_id now
      then (ok none, s)
      else (
        ok (
            some (record {
              run_id = run_id;
              worker_id = worker_id;
              fencing_token = suc run.fencing_token;
              expires_at = now + lease_ttl;
            })),
        record s { runs = put run_id (acquired_by worker_id (now + lease_ttl) run) s.runs },
      )
]

-- The lease that the grant names is the run's.
abbrev pub is_current : LeaseGrant → ProductionRun → Bool
is_current grant run =
    holds run.lease_owner grant.worker_id && run.fencing_token == grant.fencing_token

abbrev pub completed_as : ProductionRunStatus → ProductionRun → ProductionRun
completed_as status run = record run {
  status = status;
  queue_slot_acquired = false;
  lease_owner = none;
  lease_expires_at = none;
}

-- The run as completed, if the admission that follows does not raise.
abbrev pub after_admission : ProductionRun → Returns (List ProductionRun) → Returns ProductionRun
after_admission run (ok admitted, s) = (ok run, s)
after_admission run (err e, s) = (err e, s)

unfoldable pub complete_run : LeaseGrant → ProductionRunStatus → Store → Returns ProductionRun
complete_run grant status s =
    if not (is_terminal status) then (err value_error, s) else elim (get grant.run_id s.runs) [
      | none ↦ (err key_error, s)
      | some run ↦
          if is_current grant run
          then after_admission (completed_as status run) (
              release_and_admit_waiting
                (record s { runs = put grant.run_id (completed_as status run) s.runs }))
          else (err lost_lease, s)
    ]

unfoldable pub heartbeat : LeaseGrant → ℕ → ℕ → Store → Returns LeaseGrant
heartbeat grant now lease_ttl s = elim (get grant.run_id s.runs) [
  | none ↦ (err key_error, s)
  | some run ↦
      if is_current grant run && is_later run.lease_expires_at now
      then (
        ok (record grant { expires_at = now + lease_ttl }),
        record s {
          runs = put grant.run_id (record run { lease_expires_at = some (now + lease_ttl) }) s.runs;
        },
      )
      else (err lost_lease, s)
]

unfoldable pub has_inbox : String → String → Store → Bool
has_inbox consumer_name message_id s = any (λ entry. entry == (consumer_name, message_id)) s.inbox

-- set.add
unfoldable pub record_inbox : String → String → Store → Store
record_inbox consumer_name message_id s =
    if has_inbox consumer_name message_id s
    then s
    else record s { inbox = (consumer_name, message_id) ∷ s.inbox }
