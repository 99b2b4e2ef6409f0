-- ===== src/Workflow/Tests.antt =====
-- The theorems on the workflow service at concrete inputs.
use prd_agent.Base.{ℕ, ◌≡◌, refl, String, true, none, List, [], ◌∷◌, ok, err, arith, text_key}
use prd_agent.Base.Dict.{get, put}
use prd_agent.Domain.Statuses.{TaskStatus, RunStatus, UnitStatus, OutlineStatus}
use prd_agent.Domain.Errors.{other}
use prd_agent.Domain.Entities.{
  ConfirmationUnit, OutlineVersion, WorkflowSnapshot, brief_of, needs_clarification,
}
use prd_agent.Workflow.Repository.{
  Repository, init, snapshot_of, save_run, append_event, create_task_bundle, snapshot,
  save_checkpoint, latest_run, latest_of,
}
use prd_agent.Workflow.Outside.{Outside, Library, CommandInput, start_task as start_input}
use prd_agent.Workflow.Common.{new_run}
use prd_agent.Workflow.Starting.{new_task}
use prd_agent.Workflow.Starting as Starting
use prd_agent.Base.Texts.{strip}
use prd_agent.Workflow.Step.{Command, start_task, reply_to_task, run_command, history}
use prd_agent.Workflow.Closure.{contains, dependent_unit_closure}
use prd_agent.Workflow.Closure.Least.{
  dependent_unit_closure_least, Spreads, AllIn, Within, IsClosed,
}
use prd_agent.Workflow.Evolution.{Evolves, IsKeyed}
use prd_agent.Workflow.Evolution.Replays.{history-Evolves, run_command_once, IsReplay, IsRefused}

abbrev hash : CommandInput → String
hash (start_input message) = message
hash input = "hash"

abbrev library : Library
library = record { sha256_json = hash; hexdigest = λ value. value; lower = λ value. value }

-- The model asks a question about each idea.
abbrev outside : Outside
outside = record {
  hex = λ prefix i. "0";
  now = λ i. i;
  error_text = λ e. "error";
  requirement_brief = λ message previous. ok (brief_of message ("who reads it?" ∷ []));
  outline = λ brief. err other;
  unit_context = none;
  unit_draft = λ payload keys. err other;
  ground = none;
  check_document = none;
  evidence_appendix = λ results. "";
}

abbrev start : Command
start = start_task (record { message = "notes"; idempotency_key = "k"; actor_id = "ann" })

-- The same key for another idea.
abbrev start_other : Command
start_other = start_task (record { message = "plans"; idempotency_key = "k"; actor_id = "ann" })

abbrev answer : Command
answer = reply_to_task (record {
  task_id = "task-0";
  message = "everyone";
  expected_task_version = 2;
  idempotency_key = "k2";
  actor_id = "ann";
})

abbrev commands : List (Outside × Command)
commands = (outside, start) ∷ (outside, answer) ∷ []

init-IsKeyed : IsKeyed init
unfolding get init
init-IsKeyed id v e = absurd (ground (arith, e))

history-Evolves_example : Evolves init (history library commands init)
unfolding get init
history-Evolves_example = history-Evolves library commands init init-IsKeyed (refl, (tt, tt))

abbrev after_start : Repository
after_start = (run_command library outside start init).1

abbrev started : WorkflowSnapshot
started =
    snapshot_of "task-0"
      (record (new_task outside "notes" "ann") {
        status = TaskStatus.clarifying;
        version = 2;
        updated_at = 0;
      })
      (new_run outside "task-0" "thread-0" RunStatus.waiting_user "notes" "k" 0) after_start

start-returns : run_command library outside start init ≡ (ok started, after_start)
unfolding run_command Starting.start_task strip get init needs_clarification save_run append_event
    create_task_bundle put snapshot save_checkpoint latest_run latest_of
start-returns = refl

run_command_once_example :
    IsReplay library outside start started.task
      (history library ((outside, answer) ∷ []) after_start)
    × IsRefused library outside start_other (history library ((outside, answer) ∷ []) after_start)
unfolding get init strip
run_command_once_example =
    run_command_once library outside outside start start_other init after_start started
      ((outside, answer) ∷ []) init-IsKeyed refl start-returns (tt, tt) refl refl refl

abbrev unit : String → ℕ → List String → ConfirmationUnit
unit unit_id sequence dependencies = record {
  unit_id = unit_id;
  outline_id = "o";
  sequence = sequence;
  title = unit_id;
  status = UnitStatus.confirmed;
  content = none;
  version = 1;
  node_ids = [];
  depends_on_unit_ids = dependencies;
  content_hash = none;
  grounding_run_id = none;
  quality_run_id = none;
  section_drafts = [];
}

-- The second unit depends on the first, the third on none that is selected.
abbrev outline : OutlineVersion
outline = record {
  outline_id = "o";
  task_id = "task-0";
  version = 1;
  title = "notes";
  status = OutlineStatus.confirmed;
  nodes = [];
  confirmation_units = unit "b" 2 ("a" ∷ []) ∷ unit "a" 1 [] ∷ unit "c" 3 [] ∷ [];
  created_at = 0;
  confirmed_at = none;
}

abbrev IsOfTwo : String → Type 0
IsOfTwo x = contains ("a" ∷ "b" ∷ []) x ≡ true

dependent_unit_closure_least_example :
    let c = dependent_unit_closure outline ("a" ∷ []) in
    Within ("a" ∷ []) c × IsClosed c outline.confirmation_units × AllIn IsOfTwo c
dependent_unit_closure_least_example =
    dependent_unit_closure_least outline ("a" ∷ []) IsOfTwo two-Spreads a-AllIn
  where
    a-AllIn : AllIn IsOfTwo ("a" ∷ [])
    a-AllIn x h = ground arith

    two-Spreads : Spreads IsOfTwo outline.confirmation_units
    two-Spreads = ((λ x h p. refl), ((λ x h p. refl), ((λ x h p. absurd (ground (arith, h))), tt)))
