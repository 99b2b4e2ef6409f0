-- ===== src/Workflow/Confirming.antt =====
-- `confirm_outline` and `confirm_unit` of src/prd_agent/workflow/service.py.
use prd_agent.Base.{
  text_key, ℕ, suc, max, String, Bool, true, false, ◌&&◌, Option, none, some, List, [], ◌∷◌, ◌++◌,
  map, filter, head, length, is_empty, leb, ltb, ◌==◌, if◌then◌else◌, Result, ok, err,
}
use prd_agent.Base.Sort.{sorted}
use prd_agent.Base.Texts.{is_blank}
use prd_agent.Domain.Statuses.{
  TaskStatus, RunStatus, OutlineStatus, UnitStatus, SectionStatus, DocumentStatus,
  is_outline_review, is_generating, is_open,
}
use prd_agent.Domain.Errors.{WorkflowError, invalid_transition, other}
use prd_agent.Domain.Entities.{
  Task, AgentRun, OutlineVersion, ConfirmationUnit, SectionDraft, PrdSectionVersion,
  PrdDocumentVersion, WorkflowSnapshot, current_outline, text, number, flag,
}
use prd_agent.Domain.Commands.{ConfirmOutline, ConfirmUnit}
use prd_agent.Policies.Outlines as Outlines
use prd_agent.Policies.Units as Units
use prd_agent.Policies.Units.{unit_of}
use prd_agent.Workflow.Repository.{
  Repository, Action, snapshot, save_task, save_run, save_outline, save_section, save_document,
  save_quality_result, save_idempotency,
}
use prd_agent.Workflow.Action.{◌>>=◌, ◌>>◌, checked, reading, writing}
use prd_agent.Workflow.Outside.{
  Outside, Library, confirm_outline as outline_input, confirm_unit as unit_input, new_id,
}
use prd_agent.Workflow.Sections.{current_sections, render_markdown}
use prd_agent.Workflow.Generating.{generate_unit}
use prd_agent.Workflow.Common.{
  once, advance, event, checkpoint, content_hash, owned_snapshot, ensure_version, new_run,
  new_record, succeeded_run, brief_in, with_unit,
}

-- What a confirmation is about, once its tests are passed.
pub record Confirmation : Type 0 where
  pub found : WorkflowSnapshot
  pub outline : OutlineVersion
  pub unit : ConfirmationUnit

-- not snapshot.current_outline, and the status of the task
abbrev pub outline_when : Bool → WorkflowSnapshot → Result WorkflowError OutlineVersion
outline_when ready found = elim (current_outline found) [
  | none ↦ err invalid_transition
  | some outline ↦ if ready then ok outline else err invalid_transition
]

-- The first unit is confirmation_units[0].
unfoldable pub outline_guard : ConfirmOutline → Repository → Result WorkflowError Confirmation
unfolding owned_snapshot
outline_guard c s = elim (owned_snapshot c.task_id c.actor_id s) [
  | err e ↦ err e
  | ok found ↦ elim (ensure_version found.task c.expected_task_version) [
    | err e ↦ err e
    | ok current ↦ elim (outline_when (is_outline_review found.task.status) found) [
      | err e ↦ err e
      | ok outline ↦ elim (Outlines.confirm outline c.outline_version) [
        | err e ↦ err e
        | ok allowed ↦ elim outline.confirmation_units [
          | [] ↦ err other
          | unit ∷ units ↦ ok (record { found = found; outline = outline; unit = unit })
        ]
      ]
    ]
  ]
]

-- The outline is confirmed, and its first unit is generated next.
unfoldable pub confirmed_outline : Outside → OutlineVersion → ConfirmationUnit → OutlineVersion
confirmed_outline o outline unit = record outline {
  status = OutlineStatus.confirmed;
  confirmed_at = some (o.now 8);
  confirmation_units = elim outline.confirmation_units [ [] ↦ [] | first ∷ units ↦ unit ∷ units ];
}

-- The run before is saved as succeeded, a new one as running, and the command as made.
unfoldable pub take_over : Outside → String → String → String → Task → AgentRun → Action AgentRun
take_over o actor_id key input_hash task old_run = do
  let run = new_run o task.task_id old_run.thread_id RunStatus.running input_hash key 1
  save_run (succeeded_run old_run (o.now 7))
  save_run run
  writing (save_idempotency (new_record o actor_id key input_hash task.task_id run.run_id 4))
  checked (ok run)

-- The writes of a confirmation, before the first unit is generated.
unfoldable pub outline_confirmed :
    Library → Outside → ConfirmOutline → Confirmation → AgentRun → Action WorkflowSnapshot
unfolding advance confirmed_outline
outline_confirmed l o c v run = do
  advanced ← checked (advance v.found.task TaskStatus.generating c.expected_task_version)
  let unit = record v.unit { status = UnitStatus.generating }
  let outline = confirmed_outline o v.outline unit
  let task = record advanced { current_unit_sequence = some 1; updated_at = o.now 9 }
  writing (save_outline outline)
  writing (save_task task)
  writing (
      event o 2 10 task.task_id "OutlineConfirmed"
        (("outline_version", number outline.version) ∷ []))
  brief ← checked (brief_in v.found)
  generate_unit l o task run outline unit brief

unfoldable pub confirm_outline_new :
    Library → Outside → ConfirmOutline → String → Action WorkflowSnapshot
unfolding outline_guard take_over outline_confirmed
confirm_outline_new l o c input_hash = do
  v ← reading (outline_guard c)
  run ← take_over o c.actor_id c.idempotency_key input_hash v.found.task v.found.run
  outline_confirmed l o c v run

unfoldable pub confirm_outline : Library → Outside → ConfirmOutline → Action WorkflowSnapshot
unfolding confirm_outline_new once
confirm_outline l o c =
    let input_hash =
      l.sha256_json (outline_input c.task_id c.outline_version c.expected_task_version) in
    once c.actor_id c.idempotency_key input_hash (confirm_outline_new l o c input_hash)

unfoldable pub unit_guard : ConfirmUnit → Repository → Result WorkflowError Confirmation
unfolding owned_snapshot
unit_guard c s = elim (owned_snapshot c.task_id c.actor_id s) [
  | err e ↦ err e
  | ok found ↦ elim (ensure_version found.task c.expected_task_version) [
    | err e ↦ err e
    | ok current ↦ elim (outline_when (is_generating found.task.status) found) [
      | err e ↦ err e
      | ok outline ↦ elim (Units.confirm outline c.unit_id found.task.current_unit_sequence) [
        | err e ↦ err e
        | ok allowed ↦ elim (unit_of c.unit_id outline.confirmation_units) [
          | none ↦ err other
          | some unit ↦ ok (record { found = found; outline = outline; unit = unit })
        ]
      ]
    ]
  ]
]

-- x or default
abbrev pub or_text : Option String → String → String
or_text none default_text = default_text
or_text (some value) default_text = if is_blank value then default_text else value

-- unit.section_drafts, or one draft of the whole unit
unfoldable pub drafts_to_confirm : Library → ConfirmationUnit → List SectionDraft
drafts_to_confirm l unit =
    if is_empty unit.section_drafts
    then record {
      node_id = head unit.node_ids;
      title = unit.title;
      content = or_text unit.content "";
      content_hash = or_text unit.content_hash (content_hash l (or_text unit.content ""));
    }
      ∷ []
    else unit.section_drafts

-- The two optional ids are the same.
abbrev pub same_node : Option String → Option String → Bool
same_node none none = true
same_node (some a) (some b) = a == b
same_node _ _ = false

-- max((item.version for item in sections if item.node_id == node_id), default=0)
abbrev pub node_version : Option String → List PrdSectionVersion → ℕ
node_version node_id [] = 0
node_version node_id (section ∷ sections) =
    let rest = node_version node_id sections in
    if same_node section.node_id node_id then max section.version rest else rest

-- The section versions of the drafts from the i-th on.
unfoldable pub new_sections :
    Outside
    → String
    → AgentRun
    → ConfirmationUnit
    → List PrdSectionVersion
    → ℕ
    → List SectionDraft
    → List PrdSectionVersion
new_sections o actor_id run unit sections i [] = []
new_sections o actor_id run unit sections i (draft ∷ drafts) =
    record {
      section_id = new_id o "section" i;
      unit_id = unit.unit_id;
      version = suc (node_version draft.node_id sections);
      title = draft.title;
      content = draft.content;
      created_at = o.now 11;
      node_id = draft.node_id;
      status = SectionStatus.confirmed;
      content_hash = draft.content_hash;
      source_run_id = some run.run_id;
      grounding_run_id = none;
      quality_run_id = none;
      supersedes_section_id = none;
      confirmed_by = some actor_id;
      confirmed_at = some (o.now 12);
    }
    ∷ new_sections o actor_id run unit sections (suc i) drafts

abbrev pub save_sections : String → List PrdSectionVersion → Repository → Repository
save_sections task_id [] s = s
save_sections task_id (section ∷ sections) s =
    save_sections task_id sections (save_section task_id section s)

-- The next unit in the order of the sequence that has still to be generated.
unfoldable pub next_unit : ConfirmationUnit → OutlineVersion → Option ConfirmationUnit
unfolding sorted
next_unit unit outline = head (
    sorted (λ a b. leb a.sequence b.sequence)
      (filter (λ item. ltb unit.sequence item.sequence && is_open item.status)
        outline.confirmation_units))

-- The next unit is generated.
unfoldable pub go_on :
    Library
    → Outside
    → WorkflowSnapshot
    → AgentRun
    → OutlineVersion
    → ConfirmationUnit
    → Action WorkflowSnapshot
go_on l o found run outline next = do
  let unit = record next { status = UnitStatus.generating }
  let changed = with_unit unit outline
  let task = record found.task {
    version = suc found.task.version;
    current_unit_sequence = some unit.sequence;
    updated_at = o.now 13;
  }
  writing (save_outline changed)
  writing (save_task task)
  brief ← checked (brief_in found)
  generate_unit l o task run changed unit brief

abbrev pub new_document :
    Library → Outside → WorkflowSnapshot → List PrdSectionVersion → String → PrdDocumentVersion
new_document l o found sections markdown = record {
  document_id = new_id o "document" 0;
  task_id = found.task.task_id;
  version = suc (length found.documents);
  markdown = markdown;
  created_at = o.now 14;
  content_hash = content_hash l markdown;
  status = DocumentStatus.final_review;
  section_ids = map (λ (item : PrdSectionVersion). item.section_id) sections;
  confirmed_by = none;
  confirmed_at = none;
}

-- The check of quality, where it is configured.
unfoldable pub check_quality :
    Outside → String → PrdDocumentVersion → OutlineVersion → List PrdSectionVersion → Action Unit
check_quality o task_id document outline sections = elim o.check_document [
  | none ↦ checked (ok tt)
  | some check ↦ do
    quality ← checked (check (new_id o "quality" 0) task_id document.document_id outline sections)
    writing (save_quality_result task_id quality)
    writing (
        event o 4 15 task_id "DocumentQualityChecked" (
          ("document_id", text document.document_id)
          ∷ ("confirmable", flag quality.confirmable)
          ∷ ("issue_count", number (length quality.issues))
          ∷ []))
]

-- The document is rendered, saved and checked; the run ends.
unfoldable pub render_document :
    Library
    → Outside
    → WorkflowSnapshot
    → AgentRun
    → OutlineVersion
    → List PrdSectionVersion
    → Task
    → Action WorkflowSnapshot
unfolding check_quality
render_document l o found run outline sections task = do
  let current = current_sections outline (found.sections ++ sections)
  brief ← checked (brief_in found)
  markdown ←
      checked (render_markdown brief outline current (o.evidence_appendix found.grounding_results))
  let document = new_document l o found current markdown
  writing (save_document document)
  check_quality o task.task_id document outline current
  writing (
      event o 5 17 task.task_id "PrdRendered"
        (("document_version", number (suc (length found.documents))) ∷ []))
  let ended = succeeded_run run (o.now 18)
  save_run ended
  writing (checkpoint task ended "FINAL_REVIEW")
  reading (snapshot task.task_id)

-- All units are done: the document is rendered for the final review.
unfoldable pub finish_document :
    Library
    → Outside
    → ConfirmUnit
    → WorkflowSnapshot
    → AgentRun
    → OutlineVersion
    → List PrdSectionVersion
    → Action WorkflowSnapshot
unfolding advance render_document
finish_document l o c found run outline sections = do
  advanced ← checked (advance found.task TaskStatus.final_review c.expected_task_version)
  let task = record advanced { updated_at = o.now 16 }
  writing (save_task task)
  render_document l o found run outline sections task

-- The unit as it is confirmed.
abbrev pub confirmed_unit : ConfirmationUnit → ConfirmationUnit
confirmed_unit unit = record unit { status = UnitStatus.confirmed; version = suc unit.version }

-- The writes of a confirmation, and what comes next.
unfoldable pub unit_confirmed :
    Library → Outside → ConfirmUnit → Confirmation → AgentRun → Action WorkflowSnapshot
unfolding go_on finish_document next_unit new_sections drafts_to_confirm
unit_confirmed l o c v run = do
  let unit = confirmed_unit v.unit
  let outline = with_unit unit v.outline
  let sections = new_sections o c.actor_id run unit v.found.sections 0 (drafts_to_confirm l unit)
  writing (save_outline outline)
  writing (save_sections v.found.task.task_id sections)
  writing (event o 3 10 v.found.task.task_id "UnitConfirmed" (("unit_id", text unit.unit_id) ∷ []))
  elim (next_unit unit outline) [
    | none ↦ finish_document l o c v.found run outline sections
    | some next ↦ go_on l o v.found run outline next
  ]

unfoldable pub confirm_unit_new : Library → Outside → ConfirmUnit → String → Action WorkflowSnapshot
unfolding unit_guard take_over unit_confirmed
confirm_unit_new l o c input_hash = do
  v ← reading (unit_guard c)
  run ← take_over o c.actor_id c.idempotency_key input_hash v.found.task v.found.run
  unit_confirmed l o c v run

unfoldable pub confirm_unit : Library → Outside → ConfirmUnit → Action WorkflowSnapshot
unfolding confirm_unit_new once
confirm_unit l o c =
    let input_hash = l.sha256_json (unit_input c.task_id c.unit_id c.expected_task_version) in
    once c.actor_id c.idempotency_key input_hash (confirm_unit_new l o c input_hash)
