-- ===== src/Workflow/Starting.antt =====
-- `start_task` and `reply_to_task` of src/prd_agent/workflow/service.py. The lock of the key makes
-- `start_task` one step.
use prd_agent.Base.{
  ℕ, suc, String, Bool, true, false, none, some, [], ◌∷◌, length, if◌then◌else◌, Result, ok, err,
}
use prd_agent.Base.Texts.{is_blank, strip, text_take}
use prd_agent.Domain.Statuses.{
  TaskStatus, RunStatus, OutlineStatus, accepts_reply, is_outline_review,
}
use prd_agent.Domain.Errors.{WorkflowError, invalid_command, invalid_transition}
use prd_agent.Domain.Entities.{
  Task, AgentRun, RequirementBrief, RequirementBriefVersion, WorkflowSnapshot, brief_of,
  needs_clarification, current_outline, text, number,
}
use prd_agent.Domain.Commands.{StartTask, ReplyToTask}
use prd_agent.Workflow.Repository.{
  Repository, Action, snapshot, create_task_bundle, save_task, save_run, save_outline, save_message,
  save_brief, save_idempotency,
}
use prd_agent.Workflow.Action.{◌>>=◌, ◌>>◌, checked, reading, writing}
use prd_agent.Workflow.Outside.{
  Outside, Library, start_task as start_input, reply_to_task as reply_input, new_id,
}
use prd_agent.Workflow.Generating.{is_model_error}
use prd_agent.Workflow.Outlining.{generate_outline}
use prd_agent.Workflow.Common.{
  once, advance, present, event, checkpoint, owned_task, ensure_version, new_run, new_message,
  new_record, succeeded_run, brief_in,
}

-- A task as it is made, with the defaults of Task.
abbrev pub new_task : Outside → String → String → Task
new_task o title owner_id = record {
  task_id = new_id o "task" 0;
  title = some (text_take 120 title);
  status = TaskStatus.draft;
  version = 1;
  current_outline_version = none;
  current_unit_sequence = none;
  created_at = o.now 1;
  updated_at = o.now 1;
  owner_id = owner_id;
}

abbrev pub brief_version : Outside → String → ℕ → RequirementBrief → Bool → RequirementBriefVersion
brief_version o task_id version brief confirmed = record {
  task_id = task_id;
  version = version;
  brief = brief;
  confirmed = confirmed;
  created_at = o.now 3;
}

-- The bundle of a new task.
abbrev pub bundle :
    Outside
    → StartTask
    → String
    → Task
    → AgentRun
    → RequirementBriefVersion
    → Repository
    → Repository
bundle o c input_hash task run brief =
    create_task_bundle task (new_message o task.task_id c.actor_id (strip c.message) 2) brief run
      (new_record o c.actor_id c.idempotency_key input_hash task.task_id run.run_id 4)

-- The model gave no brief: the task is saved as failed.
unfoldable pub start_failed :
    Library → Outside → StartTask → String → WorkflowError → Action WorkflowSnapshot
unfolding advance
start_failed l o c input_hash e = do
  clarifying ← checked (
      advance (new_task o (strip c.message) c.actor_id) TaskStatus.clarifying
        (new_task o (strip c.message) c.actor_id).version)
  failed ← checked (advance clarifying TaskStatus.failed clarifying.version)
  let task = record failed { updated_at = o.now 0 }
  let run =
      record (new_run o task.task_id (new_id o "thread" 0) RunStatus.failed input_hash
        c.idempotency_key 0) { ended_at = some (o.now 0); error = some (o.error_text e) }
  writing (
      bundle o c input_hash task run (
        brief_version o task.task_id 1 (brief_of (strip c.message) ("需求结构化失败，需要用户重试或补充信息" ∷ []))
          false))
  writing (event o 0 5 task.task_id "RunFailed" (("node", text "EXTRACT_REQUIREMENT_BRIEF") ∷ []))
  writing (checkpoint task run "EXTRACT_REQUIREMENT_BRIEF_FAILED")
  checked (err e)

-- The run waits for the user's answers.
unfoldable pub ask_user : Outside → Task → AgentRun → RequirementBrief → Action WorkflowSnapshot
unfolding present
ask_user o task run brief =
    present o task (record run { status = RunStatus.waiting_user }) 1 6 "ClarificationRequested"
      (("question_count", number (length brief.open_questions)) ∷ []) "WAIT_USER_CLARIFICATION"

-- What follows a new brief.
unfoldable pub continue_with :
    Outside → Task → AgentRun → RequirementBrief → Action WorkflowSnapshot
unfolding ask_user generate_outline
continue_with o task run brief =
    if needs_clarification brief
    then ask_user o task run brief
    else generate_outline o task run brief

unfoldable pub start_with :
    Outside → StartTask → String → RequirementBrief → Action WorkflowSnapshot
unfolding advance continue_with
start_with o c input_hash brief = do
  advanced ← checked (
      advance (new_task o brief.problem c.actor_id) TaskStatus.clarifying
        (new_task o brief.problem c.actor_id).version)
  let task = record advanced { updated_at = o.now 0 }
  let run =
      new_run o task.task_id (new_id o "thread" 0) RunStatus.running input_hash c.idempotency_key 0
  writing (bundle o c input_hash task run (brief_version o task.task_id 1 brief true))
  writing (event o 0 5 task.task_id "TaskStarted" (("run_id", text run.run_id) ∷ []))
  continue_with o task run brief

unfoldable pub start_new : Library → Outside → StartTask → String → Action WorkflowSnapshot
unfolding start_failed start_with
start_new l o c input_hash s = elim (o.requirement_brief (strip c.message) none) [
  | err e ↦ if is_model_error e then start_failed l o c input_hash e s else (err e, s)
  | ok brief ↦ start_with o c input_hash brief s
]

unfoldable pub start_task : Library → Outside → StartTask → Action WorkflowSnapshot
unfolding start_new once
start_task l o c s =
    if is_blank (strip c.idempotency_key)
    then (err invalid_command, s)
    else if is_blank (strip c.message)
    then (err invalid_command, s)
    else (let input_hash = l.sha256_json (start_input (strip c.message)) in
        once c.actor_id c.idempotency_key input_hash (start_new l o c input_hash) s)

-- The task and the snapshot that a reply is for, once its tests are passed.
unfoldable pub reply_guard :
    ReplyToTask → Repository → Result WorkflowError (Task × WorkflowSnapshot)
unfolding owned_task
reply_guard c s = elim (owned_task c.task_id c.actor_id s) [
  | err e ↦ err e
  | ok task ↦ elim (ensure_version task c.expected_task_version) [
    | err e ↦ err e
    | ok current ↦
        if accepts_reply task.status
        then elim (snapshot task.task_id s) [ err e ↦ err e | ok previous ↦ ok (task, previous) ]
        else err invalid_transition
  ]
]

-- The outline under review is superseded, and the task clarifies again.
unfoldable pub supersede : Outside → ReplyToTask → Task → WorkflowSnapshot → Action Task
unfolding advance
supersede o c task previous = do
  advanced ← checked (advance task TaskStatus.clarifying c.expected_task_version)
  let changed = record advanced { updated_at = o.now 0 }
  writing (elim (current_outline previous) [
    | none ↦ λ s. s
    | some old ↦ save_outline (record old { status = OutlineStatus.superseded })
  ])
  writing (save_task changed)
  checked (ok changed)

abbrev pub back_to_clarifying : Outside → ReplyToTask → Task → WorkflowSnapshot → Action Task
back_to_clarifying o c task previous =
    if is_outline_review task.status then supersede o c task previous else checked (ok task)

unfoldable pub reply_new : Outside → ReplyToTask → String → Action WorkflowSnapshot
unfolding reply_guard supersede continue_with
reply_new o c input_hash = do
  guarded ← reading (reply_guard c)
  previous_brief ← checked (brief_in guarded.1)
  brief ← checked (o.requirement_brief (strip c.message) (some previous_brief))
  task ← back_to_clarifying o c guarded.0 guarded.1
  let previous = guarded.1
  let run =
      new_run o task.task_id previous.run.thread_id RunStatus.running input_hash c.idempotency_key 1
  save_run (succeeded_run previous.run (o.now 7))
  save_run run
  writing (save_message (new_message o task.task_id c.actor_id (strip c.message) 2))
  writing (save_brief (brief_version o task.task_id (suc (length previous.briefs)) brief true))
  writing (
      save_idempotency
        (new_record o c.actor_id c.idempotency_key input_hash task.task_id run.run_id 4))
  continue_with o task run brief

unfoldable pub reply_to_task : Library → Outside → ReplyToTask → Action WorkflowSnapshot
unfolding reply_new once
reply_to_task l o c s =
    if is_blank (strip c.message)
    then (err invalid_command, s)
    else (let input_hash =
          l.sha256_json (reply_input c.task_id (strip c.message) c.expected_task_version) in
        once c.actor_id c.idempotency_key input_hash (reply_new o c input_hash) s)
