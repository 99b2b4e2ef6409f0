-- ===== src/Workflow/Common.antt =====
-- The helpers of WorkflowService in src/prd_agent/workflow/service.py: replay of a command,
-- `show`, `_owned_task`, `_owned_snapshot`, `_checkpoint`, `_event`, `_content_hash`,
-- `_contains_unlisted_current_state_claim`, and the entities that the commands build.
use Prim.Native.String.{◌++◌ as text_append}
use prd_agent.Base.{
  text_key, nat_key, ℕ, suc, String, Bool, none, some, List, [], ◌∷◌, any, map, ◌==◌, if◌then◌else◌,
  Result, ok, err,
}
use prd_agent.Base.Texts.{is_in}
use prd_agent.Domain.Statuses.{RunStatus, TaskStatus}
use prd_agent.Domain.Errors.{
  WorkflowError, not_found, version_conflict, idempotency_conflict, other,
}
use prd_agent.Domain.Entities.{
  Task, AgentRun, OutlineVersion, ConfirmationUnit, RequirementBrief, TaskMessage,
  IdempotencyRecord, EventValue, WorkflowSnapshot, current_brief,
}
use prd_agent.Policies.Tasks.{transition}
use prd_agent.Workflow.Repository.{
  Repository, Action, get_task, get_idempotency, snapshot_for_owner, append_event, save_checkpoint,
  save_run, snapshot,
}
use prd_agent.Workflow.Action.{◌>>◌, reading, writing}
use prd_agent.Workflow.Outside.{Outside, Library, new_id}

unfoldable pub owned_task : String → String → Repository → Result WorkflowError Task
owned_task task_id actor_id s = elim (get_task task_id s) [
  | err e ↦ err e
  | ok task ↦ if task.owner_id == actor_id then ok task else err not_found
]

-- The in-memory repository has snapshot_for_owner.
unfoldable pub owned_snapshot : String → String → Repository → Result WorkflowError WorkflowSnapshot
owned_snapshot task_id actor_id s = snapshot_for_owner task_id actor_id s

unfoldable pub show : String → String → Action WorkflowSnapshot
unfolding owned_snapshot
show task_id actor_id s = (owned_snapshot task_id actor_id s, s)

-- The command is made once for its actor and key: after that it is replayed.
unfoldable pub once : String → String → String → Action WorkflowSnapshot → Action WorkflowSnapshot
unfolding owned_snapshot get_idempotency
once actor_id key input_hash act s = elim (get_idempotency actor_id key s) [
  | none ↦ act s
  | some replay ↦
      if replay.input_hash == input_hash
      then (owned_snapshot replay.task_id actor_id s, s)
      else (err idempotency_conflict, s)
]

unfoldable pub event :
    Outside → ℕ → ℕ → String → String → List (String × EventValue) → Repository → Repository
event o i k task_id event_type payload s =
    append_event (o.hex "event" i) (o.now k) task_id event_type payload s

unfoldable pub checkpoint : Task → AgentRun → String → Repository → Repository
checkpoint task run current_node s =
    save_checkpoint run.thread_id
      (record {
        task_id = task.task_id;
        run_id = run.run_id;
        thread_id = run.thread_id;
        graph_version = run.graph_version;
        task_version = task.version;
        current_node = current_node;
      })
      s

unfoldable pub content_hash : Library → String → String
content_hash l value = text_append "sha256:" (l.hexdigest value)

unfoldable pub contains_unlisted_current_state_claim : Library → String → Bool
unfolding is_in
contains_unlisted_current_state_claim l value =
    any (λ marker. is_in marker (l.lower value))
      ("当前系统" ∷ "现有系统" ∷ "目前系统" ∷ "已经实现" ∷ "当前支持" ∷ "currently" ∷ "existing system" ∷ [])

-- The task is of the version that the command expects.
abbrev pub ensure_version : Task → ℕ → Result WorkflowError Unit
ensure_version task expected = if task.version == expected then ok tt else err version_conflict

-- task.status = transition(task.status, target, …); task.version += 1
unfoldable pub advance : Task → TaskStatus → ℕ → Result WorkflowError Task
unfolding transition
advance task target expected = elim (transition task.status target task.version expected) [
  | err e ↦ err e
  | ok status ↦ ok (record task { status = status; version = suc task.version })
]

-- A new run with the defaults of AgentRun.
abbrev pub new_run : Outside → String → String → RunStatus → String → String → ℕ → AgentRun
new_run o task_id thread_id status input_hash key started = record {
  run_id = new_id o "run" 0;
  task_id = task_id;
  thread_id = thread_id;
  graph_name = "prd_workflow";
  graph_version = "m0.step6.v1";
  status = status;
  input_hash = input_hash;
  idempotency_key = key;
  started_at = some (o.now started);
  ended_at = none;
  error = none;
}

abbrev pub new_message : Outside → String → String → String → ℕ → TaskMessage
new_message o task_id actor_id content k = record {
  message_id = new_id o "message" 0;
  task_id = task_id;
  actor_id = actor_id;
  content = content;
  created_at = o.now k;
}

abbrev pub new_record : Outside → String → String → String → String → String → ℕ → IdempotencyRecord
new_record o actor_id key input_hash task_id run_id k = record {
  actor_id = actor_id;
  idempotency_key = key;
  input_hash = input_hash;
  task_id = task_id;
  run_id = run_id;
  created_at = o.now k;
}

-- The run as it is saved when the next one takes over.
abbrev pub succeeded_run : AgentRun → ℕ → AgentRun
succeeded_run run at = record run { status = RunStatus.succeeded; ended_at = some at }

-- snapshot.current_brief.brief
abbrev pub brief_in : WorkflowSnapshot → Result WorkflowError RequirementBrief
brief_in s = elim (current_brief s) [ none ↦ err other | some version ↦ ok version.brief ]

-- tuple(unit if item.unit_id == unit.unit_id else item for item in …)
abbrev pub with_unit : ConfirmationUnit → OutlineVersion → OutlineVersion
with_unit unit outline = record outline {
  confirmation_units =
      map (λ item. if item.unit_id == unit.unit_id then unit else item) outline.confirmation_units;
}

-- The run is saved as it waits, and the repository is returned as it then stands.
unfoldable pub present :
    Outside
    → Task
    → AgentRun
    → ℕ
    → ℕ
    → String
    → List (String × EventValue)
    → String
    → Action WorkflowSnapshot
unfolding event checkpoint
present o task run i k event_type payload node = do
  save_run run
  writing (event o i k task.task_id event_type payload)
  writing (checkpoint task run node)
  reading (snapshot task.task_id)
