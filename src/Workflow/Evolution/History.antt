-- ===== src/Workflow/Evolution/History.antt =====
-- Histories of commands of WorkflowService, src/prd_agent/workflow/service.py.
use prd_agent.Base.{
  ◌≡◌, refl, String, Bool, true, false, none, err, inl, inr, Bool-cases, text_key, pair_key, not,
  if◌then◌else◌,
}
use prd_agent.Base.Dict.{get}
use prd_agent.Base.Texts.{is_blank, strip}
use prd_agent.Domain.Errors.{invalid_command}
use prd_agent.Domain.Entities.{WorkflowSnapshot}
use prd_agent.Workflow.Repository.{Repository, Action}
use prd_agent.Workflow.Outside.{Outside, Library, CommandInput, new_id}
use prd_agent.Workflow.Outside as Outside
use prd_agent.Workflow.Common.{once}
use prd_agent.Workflow.Starting as Starting
use prd_agent.Workflow.Confirming as Confirming
use prd_agent.Workflow.Revising as Revising
use prd_agent.Workflow.Step.{
  Command, start_task, reply_to_task, confirm_outline, confirm_unit, approve_revision_plan,
  reopen_prd, finalize_prd, run_command,
}
use prd_agent.Workflow.Evolution.{IsKeyed, IsMade}
use prd_agent.Workflow.Evolution.Writes.{After}
use prd_agent.Workflow.Evolution.Shown.{Shows}
use prd_agent.Workflow.Evolution.Answers.{
  start_new-Shows, reply_new-Shows, confirm_outline_new-Shows, confirm_unit_new-Shows,
  approve_new-Shows, reopen_new-Shows, finalize_new-Shows,
}
use prd_agent.Workflow.Evolution.Starts.{start_new-After, reply_new-After}
use prd_agent.Workflow.Evolution.Confirmations.{confirm_outline_new-After, confirm_unit_new-After}
use prd_agent.Workflow.Evolution.Revisions.{approve_new-After, reopen_new-After, finalize_new-After}

abbrev pub actor_of : Command → String
actor_of (start_task c) = c.actor_id
actor_of (reply_to_task c) = c.actor_id
actor_of (confirm_outline c) = c.actor_id
actor_of (confirm_unit c) = c.actor_id
actor_of (approve_revision_plan c) = c.actor_id
actor_of (reopen_prd c) = c.actor_id
actor_of (finalize_prd c) = c.actor_id

abbrev pub key_of : Command → String
key_of (start_task c) = c.idempotency_key
key_of (reply_to_task c) = c.idempotency_key
key_of (confirm_outline c) = c.idempotency_key
key_of (confirm_unit c) = c.idempotency_key
key_of (approve_revision_plan c) = c.idempotency_key
key_of (reopen_prd c) = c.idempotency_key
key_of (finalize_prd c) = c.idempotency_key

-- The part of a command that is hashed.
abbrev pub input_of : Command → CommandInput
input_of (start_task c) = Outside.start_task (strip c.message)
input_of (reply_to_task c) =
    Outside.reply_to_task c.task_id (strip c.message) c.expected_task_version
input_of (confirm_outline c) =
    Outside.confirm_outline c.task_id c.outline_version c.expected_task_version
input_of (confirm_unit c) = Outside.confirm_unit c.task_id c.unit_id c.expected_task_version
input_of (approve_revision_plan c) =
    Outside.approve_revision_plan c.task_id c.document_id c.issue_ids c.unit_ids
      c.expected_task_version
input_of (reopen_prd c) =
    Outside.reopen_prd c.task_id c.unit_ids (strip c.reason) c.expected_task_version
input_of (finalize_prd c) =
    Outside.finalize_prd c.task_id c.document_id c.content_hash c.expected_task_version

abbrev pub hash_of : Library → Command → String
hash_of l c = l.sha256_json (input_of c)

-- The texts that a command must have.
abbrev pub is_valid : Command → Bool
is_valid (start_task c) =
    if is_blank (strip c.idempotency_key) then false else not (is_blank (strip c.message))
is_valid (reply_to_task c) = not (is_blank (strip c.message))
is_valid (reopen_prd c) = not (is_blank (strip c.reason))
is_valid _ = true

-- What a command does under a new key.
abbrev pub act_of : Library → Outside → Command → Action WorkflowSnapshot
act_of l o (start_task c) = Starting.start_new l o c (hash_of l (start_task c))
act_of l o (reply_to_task c) = Starting.reply_new o c (hash_of l (reply_to_task c))
act_of l o (confirm_outline c) =
    Confirming.confirm_outline_new l o c (hash_of l (confirm_outline c))
act_of l o (confirm_unit c) = Confirming.confirm_unit_new l o c (hash_of l (confirm_unit c))
act_of l o (approve_revision_plan c) =
    Revising.approve_new l o c (hash_of l (approve_revision_plan c))
act_of l o (reopen_prd c) = Revising.reopen_new l o c (hash_of l (reopen_prd c))
act_of l o (finalize_prd c) = Revising.finalize_new l o c (hash_of l (finalize_prd c))

-- The id that a new task is given is new.
abbrev pub IsNewTask : Outside → Command → Repository → Type 0
IsNewTask o (start_task c) s = get (new_id o "task" 0) s.tasks ≡ none
IsNewTask o c s = Unit

-- A command is refused as it is, or made once for its key.
pub run_command-once :
    (l : Library) (o : Outside) (c : Command) (s : Repository)
    → run_command l o c s ≡ (
        if is_valid c
        then once (actor_of c) (key_of c) (hash_of l c) (act_of l o c) s
        else (err invalid_command, s))
unfolding run_command Starting.start_task Starting.reply_to_task Confirming.confirm_outline
    Confirming.confirm_unit Revising.approve_revision_plan Revising.reopen_prd Revising.finalize_prd
run_command-once l o (start_task c) s = elim (Bool-cases (is_blank (strip c.idempotency_key))) [
  | inl blank ↦ rw blank refl
  | inr given ↦ elim (Bool-cases (is_blank (strip c.message))) [
    | inl blank ↦ rw (given, blank) refl
    | inr said ↦ rw (given, said) refl
  ]
]
run_command-once l o (reply_to_task c) s = elim (Bool-cases (is_blank (strip c.message))) [
  | inl blank ↦ rw blank refl
  | inr said ↦ rw said refl
]
run_command-once l o (confirm_outline c) s = refl
run_command-once l o (confirm_unit c) s = refl
run_command-once l o (approve_revision_plan c) s = refl
run_command-once l o (reopen_prd c) s = elim (Bool-cases (is_blank (strip c.reason))) [
  | inl blank ↦ rw blank refl
  | inr said ↦ rw said refl
]
run_command-once l o (finalize_prd c) s = refl

-- The task of a command: the one that it names, or the one that it makes.
abbrev pub task_of : Outside → Command → String
task_of o (start_task c) = new_id o "task" 0
task_of o (reply_to_task c) = c.task_id
task_of o (confirm_outline c) = c.task_id
task_of o (confirm_unit c) = c.task_id
task_of o (approve_revision_plan c) = c.task_id
task_of o (reopen_prd c) = c.task_id
task_of o (finalize_prd c) = c.task_id

pub act_of-After :
    (l : Library) (o : Outside) (c : Command) (s : Repository)
    → IsKeyed s
    → IsNewTask o c s
    → get (actor_of c, key_of c) s.idempotency ≡ none
    → After (λ _ t. IsMade (actor_of c) (key_of c) (hash_of l c) (task_of o c) t) s (act_of l o c s)
act_of-After l o (start_task c) s keyed new fresh = start_new-After l o c _ s new fresh
act_of-After l o (reply_to_task c) s keyed new fresh = reply_new-After o c _ s keyed fresh
act_of-After l o (confirm_outline c) s keyed new fresh =
    confirm_outline_new-After l o c _ s keyed fresh
act_of-After l o (confirm_unit c) s keyed new fresh = confirm_unit_new-After l o c _ s keyed fresh
act_of-After l o (approve_revision_plan c) s keyed new fresh =
    approve_new-After l o c _ s keyed fresh
act_of-After l o (reopen_prd c) s keyed new fresh = reopen_new-After l o c _ s keyed fresh
act_of-After l o (finalize_prd c) s keyed new fresh = finalize_new-After l o c _ s keyed fresh

-- What a command shows in the end is its task.
pub act_of-Shows :
    (l : Library) (o : Outside) (c : Command) (s : Repository)
    → IsKeyed s
    → Shows (task_of o c) (act_of l o c s)
act_of-Shows l o (start_task c) s keyed = start_new-Shows l o c _ s
act_of-Shows l o (reply_to_task c) s keyed = reply_new-Shows o c _ s keyed
act_of-Shows l o (confirm_outline c) s keyed = confirm_outline_new-Shows l o c _ s keyed
act_of-Shows l o (confirm_unit c) s keyed = confirm_unit_new-Shows l o c _ s keyed
act_of-Shows l o (approve_revision_plan c) s keyed = approve_new-Shows l o c _ s keyed
act_of-Shows l o (reopen_prd c) s keyed = reopen_new-Shows l o c _ s keyed
act_of-Shows l o (finalize_prd c) s keyed = finalize_new-Shows l o c _ s keyed
