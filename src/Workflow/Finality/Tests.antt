-- ===== src/Workflow/Finality/Tests.antt =====
-- The final confirmation at a concrete repository.
use prd_agent.Base.{◌≡◌, refl, none, some, [], ◌∷◌, ok, err, text_key}
use prd_agent.Base.Dict.{get, put}
use prd_agent.Domain.Statuses.{TaskStatus, RunStatus, UnitStatus, OutlineStatus, DocumentStatus}
use prd_agent.Domain.Errors.{other}
use prd_agent.Domain.Entities.{
  Task, AgentRun, ConfirmationUnit, OutlineVersion, PrdDocumentVersion, WorkflowSnapshot,
  current_outline,
}
use prd_agent.Domain.Commands.{FinalizePrd}
use prd_agent.Base.Sort.{sorted}
use prd_agent.Workflow.Common.{checkpoint, event}
use prd_agent.Workflow.Repository.{
  Repository, snapshot_of, save_run, append_event, snapshot, save_checkpoint, latest_run, latest_of,
  save_document, upsert, snapshot_for_owner, save_idempotency, save_task,
}
use prd_agent.Workflow.Outside.{Outside, Library}
use prd_agent.Workflow.Revising.{finalize_prd}
use prd_agent.Workflow.Finality.{IsFinal, finalize_prd-IsFinal}

abbrev library : Library
library = record {
  sha256_json = λ input. "hash";
  hexdigest = λ value. value;
  lower = λ value. value;
}

abbrev outside : Outside
outside = record {
  hex = λ prefix i. "1";
  now = λ i. i;
  error_text = λ e. "error";
  requirement_brief = λ message previous. err other;
  outline = λ brief. err other;
  unit_context = none;
  unit_draft = λ payload keys. err other;
  ground = none;
  check_document = none;
  evidence_appendix = λ results. "";
}

abbrev task : Task
task = record {
  task_id = "t";
  title = some "notes";
  status = TaskStatus.final_review;
  version = 7;
  current_outline_version = some 1;
  current_unit_sequence = some 1;
  created_at = 0;
  updated_at = 0;
  owner_id = "ann";
}

abbrev run : AgentRun
run = record {
  run_id = "run-0";
  task_id = "t";
  thread_id = "thread-0";
  graph_name = "prd_workflow";
  graph_version = "m0.step6.v1";
  status = RunStatus.succeeded;
  input_hash = "hash";
  idempotency_key = "k0";
  started_at = some 0;
  ended_at = some 0;
  error = none;
}

abbrev unit : ConfirmationUnit
unit = record {
  unit_id = "u";
  outline_id = "o";
  sequence = 1;
  title = "notes";
  status = UnitStatus.confirmed;
  content = some "text";
  version = 2;
  node_ids = [];
  depends_on_unit_ids = [];
  content_hash = some "h";
  grounding_run_id = none;
  quality_run_id = none;
  section_drafts = [];
}

abbrev outline : OutlineVersion
outline = record {
  outline_id = "o";
  task_id = "t";
  version = 1;
  title = "notes";
  status = OutlineStatus.confirmed;
  nodes = [];
  confirmation_units = unit ∷ [];
  created_at = 0;
  confirmed_at = some 0;
}

abbrev document : PrdDocumentVersion
document = record {
  document_id = "d";
  task_id = "t";
  version = 1;
  markdown = "# notes";
  created_at = 0;
  content_hash = "sha256:h";
  status = DocumentStatus.final_review;
  section_ids = [];
  confirmed_by = none;
  confirmed_at = none;
}

abbrev reviewed : Repository
reviewed = record {
  tasks = ("t", task) ∷ [];
  runs = ("run-0", run) ∷ [];
  briefs = [];
  outlines = ("t", outline ∷ []) ∷ [];
  sections = [];
  documents = ("t", document ∷ []) ∷ [];
  messages = [];
  quality_results = [];
  grounding_results = [];
  idempotency = [];
  events = [];
  checkpoints = [];
}

abbrev command : FinalizePrd
command = record {
  task_id = "t";
  document_id = "d";
  content_hash = "sha256:h";
  expected_task_version = 7;
  idempotency_key = "k";
  actor_id = "ann";
}

abbrev completed : Repository
completed = (finalize_prd library outside command reviewed).1

abbrev shown : WorkflowSnapshot
shown =
    snapshot_of "t" (record task { status = TaskStatus.completed; version = 8 })
      (record run {
        run_id = "run-1";
        input_hash = "hash";
        idempotency_key = "k";
        started_at = some 1;
        ended_at = some 2;
      })
      completed

finalize_prd-returns : finalize_prd library outside command reviewed ≡ (ok shown, completed)
unfolding finalize_prd get put snapshot_for_owner snapshot latest_run latest_of save_run upsert
    save_document append_event save_checkpoint current_outline checkpoint event save_idempotency
    save_task sorted
finalize_prd-returns = refl

finalize_prd-IsFinal_example : IsFinal command reviewed
unfolding get
finalize_prd-IsFinal_example =
    finalize_prd-IsFinal library outside command reviewed completed shown refl finalize_prd-returns
