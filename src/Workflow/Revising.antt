-- ===== src/Workflow/Revising.antt =====
-- `approve_revision_plan`, `reopen_prd` and `finalize_prd` of src/prd_agent/workflow/service.py.
use prd_agent.Base.{
  text_key, ℕ, String, Bool, false, ◌&&◌, ◌||◌, not, Option, none, some, List, [], ◌∷◌, ◌++◌, any,
  map, filter, last, head, is_empty, leb, ◌==◌, if◌then◌else◌, Result, ok, err,
}
use prd_agent.Base.Dict.{Dict, get, put}
use prd_agent.Base.Sort.{sorted}
use prd_agent.Base.Texts.{is_blank, strip}
use prd_agent.Domain.Statuses.{
  TaskStatus, RunStatus, UnitStatus, DocumentStatus, is_final_review, is_completed, is_confirmed,
}
use prd_agent.Domain.Errors.{
  WorkflowError, invalid_command, invalid_transition, version_conflict, other,
}
use prd_agent.Domain.Outcomes.{QualityResult, QualityIssue}
use prd_agent.Domain.Entities.{
  AgentRun, OutlineVersion, ConfirmationUnit, PrdDocumentVersion, WorkflowSnapshot, current_outline,
  EventValue, text, texts,
}
use prd_agent.Domain.Commands.{ApproveRevisionPlan, ReopenPrd, FinalizePrd}
use prd_agent.Workflow.Repository.{
  Repository, Action, snapshot, save_task, save_run, save_outline, save_document, save_idempotency,
}
use prd_agent.Workflow.Action.{◌>>=◌, ◌>>◌, checked, reading, writing}
use prd_agent.Workflow.Outside.{
  Outside, Library, approve_revision_plan as approve_input, reopen_prd as reopen_input,
  finalize_prd as finalize_input,
}
use prd_agent.Workflow.Closure.{contains, dependent_unit_closure}
use prd_agent.Workflow.Generating.{generate_unit}
use prd_agent.Workflow.Confirming.{outline_when}
use prd_agent.Workflow.Common.{
  once, advance, event, checkpoint, owned_snapshot, ensure_version, new_run, new_record, brief_in,
}

-- The task of the command, for which its version is tested.
unfoldable pub current_snapshot :
    String → String → ℕ → Repository → Result WorkflowError WorkflowSnapshot
unfolding owned_snapshot
current_snapshot task_id actor_id expected s = elim (owned_snapshot task_id actor_id s) [
  | err e ↦ err e
  | ok found ↦ elim (ensure_version found.task expected) [ err e ↦ err e | ok current ↦ ok found ]
]

-- The last check of the document's quality.
abbrev pub last_quality : String → WorkflowSnapshot → Option QualityResult
last_quality document_id found =
    last (filter (λ item. item.scope_id == document_id) found.quality_results)

-- {issue.issue_id: issue for issue in issues}
abbrev pub index_issues : Dict String QualityIssue → List QualityIssue → Dict String QualityIssue
index_issues index [] = index
index_issues index (issue ∷ issues) = index_issues (put issue.issue_id issue index) issues

-- The units that the issues affect; none where an issue is unknown.
unfoldable pub affected_units : Dict String QualityIssue → List String → Option (List String)
affected_units index [] = some []
affected_units index (id ∷ ids) =
    let rest = affected_units index ids in
    elim (get id index) [
      | none ↦ none
      | some issue ↦ elim rest [
        | none ↦ none
        | some units ↦ some (issue.affected_unit_ids ++ units)
      ]
    ]

-- Every item is one of the allowed, and there is one.
abbrev pub are_all_in : List String → List String → Bool
are_all_in allowed items = not (is_empty items || any (λ item. not (contains allowed item)) items)

-- document_id is that of the last document.
abbrev pub is_last_document : String → WorkflowSnapshot → Bool
is_last_document document_id found = elim (last found.documents) [
  | none ↦ false
  | some document ↦ document.document_id == document_id
]

-- The approved issues are of the last check, and the units are ones that they affect.
abbrev pub approve_quality : ApproveRevisionPlan → WorkflowSnapshot → Result WorkflowError Unit
approve_quality c found = elim (last_quality c.document_id found) [
  | none ↦ err invalid_transition
  | some quality ↦
      if is_empty c.issue_ids
      then err invalid_transition
      else (elim (affected_units (index_issues [] quality.issues) c.issue_ids) [
        | none ↦ err invalid_transition
        | some allowed ↦ if are_all_in allowed c.unit_ids then ok tt else err invalid_transition
      ])
]

-- What a revision changes: the outline, and the unit that is generated first.
pub record Revision : Type 0 where
  pub found : WorkflowSnapshot
  pub outline : OutlineVersion
  pub selected : List ConfirmationUnit
  pub target : ConfirmationUnit

-- item.sequence in order
abbrev pub sequence_le : ConfirmationUnit → ConfirmationUnit → Bool
sequence_le a b = leb a.sequence b.sequence

abbrev pub with_status : UnitStatus → ConfirmationUnit → ConfirmationUnit
with_status status unit = record unit { status = status }

-- The units whose ids are in the closure have to be revised.
unfoldable pub reopen_units : List String → List ConfirmationUnit → List ConfirmationUnit
reopen_units ids units =
    map
      (λ unit.
        if contains ids unit.unit_id then with_status UnitStatus.revision_required unit else unit)
      units

-- The first unit of the smallest sequence among those of the closure is the object that is
-- generated next: the units before it are passed over.
unfoldable pub generate_first : List String → ℕ → List ConfirmationUnit → List ConfirmationUnit
generate_first ids sequence [] = []
generate_first ids sequence (unit ∷ units) =
    let rest = generate_first ids sequence units in
    if contains ids unit.unit_id && (leb unit.sequence sequence && leb sequence unit.sequence)
    then with_status UnitStatus.generating unit ∷ units
    else unit ∷ rest

-- The outline with the units of the closure reopened, the one of the smallest sequence generating.
unfoldable pub reopen :
    WorkflowSnapshot → OutlineVersion → List String → Result WorkflowError Revision
unfolding dependent_unit_closure reopen_units generate_first sorted
reopen found outline unit_ids =
    let ids : List String = dependent_unit_closure outline unit_ids in
    let selected : List ConfirmationUnit =
      filter (λ unit. contains ids unit.unit_id) outline.confirmation_units in
    elim (head (sorted sequence_le selected)) [
      | none ↦ err other
      | some first ↦ ok (record {
        found = found;
        outline = record outline {
          confirmation_units =
              generate_first ids first.sequence (reopen_units ids outline.confirmation_units);
        };
        selected = selected;
        target = with_status UnitStatus.generating first;
      })
    ]

-- The ids of the units in the order of the sequence.
abbrev pub ordered_ids : List ConfirmationUnit → List String
ordered_ids units = map (λ unit. unit.unit_id) (sorted sequence_le units)

unfoldable pub approve_guard : ApproveRevisionPlan → Repository → Result WorkflowError Revision
unfolding current_snapshot affected_units reopen
approve_guard c s = elim (current_snapshot c.task_id c.actor_id c.expected_task_version s) [
  | err e ↦ err e
  | ok found ↦ elim (outline_when (is_final_review found.task.status) found) [
    | err e ↦ err e
    | ok outline ↦
        if is_last_document c.document_id found
        then elim (approve_quality c found) [
          | err e ↦ err e
          | ok approved ↦
              if are_all_in (map (λ u. u.unit_id) outline.confirmation_units) c.unit_ids
              then reopen found outline c.unit_ids
              else err invalid_transition
        ]
        else err version_conflict
  ]
]

-- The writes of a revision: the task generates again, from the first unit on.
unfoldable pub revise :
    Library
    → Outside
    → String
    → String
    → ℕ
    → String
    → Revision
    → String
    → List (String × EventValue)
    → Action WorkflowSnapshot
unfolding advance
revise l o actor_id key expected input_hash v event_type payload = do
  advanced ← checked (advance v.found.task TaskStatus.generating expected)
  let task = record advanced {
    current_unit_sequence = some v.target.sequence;
    updated_at = o.now 0;
  }
  let run = new_run o task.task_id v.found.run.thread_id RunStatus.running input_hash key 1
  save_run run
  writing (save_outline v.outline)
  writing (save_task task)
  writing (save_idempotency (new_record o actor_id key input_hash task.task_id run.run_id 4))
  writing (event o 6 5 task.task_id event_type payload)
  brief ← checked (brief_in v.found)
  generate_unit l o task run v.outline v.target brief

unfoldable pub approve_new :
    Library → Outside → ApproveRevisionPlan → String → Action WorkflowSnapshot
unfolding approve_guard revise
approve_new l o c input_hash = do
  v ← reading (approve_guard c)
  revise l o c.actor_id c.idempotency_key c.expected_task_version input_hash v
      "RevisionPlanApproved"
      (("document_id", text c.document_id) ∷ ("unit_ids", texts (ordered_ids v.selected)) ∷ [])

unfoldable pub approve_revision_plan :
    Library → Outside → ApproveRevisionPlan → Action WorkflowSnapshot
unfolding approve_new once
approve_revision_plan l o c =
    let input_hash =
      l.sha256_json
        (approve_input c.task_id c.document_id c.issue_ids c.unit_ids c.expected_task_version) in
    once c.actor_id c.idempotency_key input_hash (approve_new l o c input_hash)

unfoldable pub reopen_guard : ReopenPrd → Repository → Result WorkflowError Revision
unfolding current_snapshot reopen
reopen_guard c s = elim (current_snapshot c.task_id c.actor_id c.expected_task_version s) [
  | err e ↦ err e
  | ok found ↦ elim (outline_when (is_completed found.task.status) found) [
    | err e ↦ err e
    | ok outline ↦
        if are_all_in (map (λ u. u.unit_id) outline.confirmation_units) c.unit_ids
        then reopen found outline c.unit_ids
        else err invalid_transition
  ]
]

unfoldable pub reopen_new : Library → Outside → ReopenPrd → String → Action WorkflowSnapshot
unfolding reopen_guard revise
reopen_new l o c input_hash = do
  v ← reading (reopen_guard c)
  revise l o c.actor_id c.idempotency_key c.expected_task_version input_hash v "PrdReopened"
      (("unit_ids", texts (ordered_ids v.selected)) ∷ ("reason", text (strip c.reason)) ∷ [])

unfoldable pub reopen_prd : Library → Outside → ReopenPrd → Action WorkflowSnapshot
unfolding reopen_new once
reopen_prd l o c s =
    if is_blank (strip c.reason)
    then (err invalid_command, s)
    else (let input_hash =
          l.sha256_json
            (reopen_input c.task_id c.unit_ids (strip c.reason) c.expected_task_version) in
        once c.actor_id c.idempotency_key input_hash (reopen_new l o c input_hash) s)

-- document.document_id and document.content_hash are the command's.
abbrev pub is_document_of : FinalizePrd → PrdDocumentVersion → Bool
is_document_of c document =
    document.document_id == c.document_id && document.content_hash == c.content_hash

abbrev pub are_confirmed : List ConfirmationUnit → Bool
are_confirmed units = not (any (λ unit. not (is_confirmed unit.status)) units)

-- relevant_quality and not relevant_quality[-1].confirmable
abbrev pub is_blocked : Option QualityResult → Bool
is_blocked none = false
is_blocked (some quality) = not quality.confirmable

-- The last document, once every test of the final confirmation is passed.
abbrev pub finalize_document :
    FinalizePrd → WorkflowSnapshot → PrdDocumentVersion → Result WorkflowError PrdDocumentVersion
finalize_document c found document =
    if is_document_of c document
    then elim (current_outline found) [
      | none ↦ err other
      | some outline ↦
          if are_confirmed outline.confirmation_units
          then (if is_blocked (last_quality document.document_id found)
              then err invalid_transition
              else ok document)
          else err invalid_transition
    ]
    else err version_conflict

unfoldable pub finalize_guard :
    FinalizePrd → Repository → Result WorkflowError (WorkflowSnapshot × PrdDocumentVersion)
unfolding current_snapshot
finalize_guard c s = elim (current_snapshot c.task_id c.actor_id c.expected_task_version s) [
  | err e ↦ err e
  | ok found ↦
      if is_final_review found.task.status
      then elim (last found.documents) [
        | none ↦ err invalid_transition
        | some document ↦ elim (finalize_document c found document) [
          | err e ↦ err e
          | ok final ↦ ok (found, final)
        ]
      ]
      else err invalid_transition
]

-- The run that the final confirmation is.
abbrev pub finalizing_run : Outside → FinalizePrd → String → WorkflowSnapshot → AgentRun
finalizing_run o c input_hash found =
    record (new_run o found.task.task_id found.run.thread_id RunStatus.succeeded input_hash
      c.idempotency_key 1) { ended_at = some (o.now 2) }

abbrev pub final_document : Outside → FinalizePrd → PrdDocumentVersion → PrdDocumentVersion
final_document o c document = record document {
  status = DocumentStatus.confirmed;
  confirmed_by = some c.actor_id;
  confirmed_at = some (o.now 3);
}

-- The writes of the final confirmation.
unfoldable pub finalized :
    Outside → FinalizePrd → String → WorkflowSnapshot → PrdDocumentVersion → Action WorkflowSnapshot
unfolding advance
finalized o c input_hash found document = do
  let run = finalizing_run o c input_hash found
  let final = final_document o c document
  advanced ← checked (advance found.task TaskStatus.completed c.expected_task_version)
  let task = record advanced { updated_at = o.now 0 }
  save_run run
  writing (save_document final)
  writing (save_task task)
  writing (
      save_idempotency
        (new_record o c.actor_id c.idempotency_key input_hash task.task_id run.run_id 4))
  writing (event o 7 5 task.task_id "PrdFinalized" (("document_id", text final.document_id) ∷ []))
  writing (checkpoint task run "COMPLETED")
  reading (snapshot task.task_id)

unfoldable pub finalize_new : Library → Outside → FinalizePrd → String → Action WorkflowSnapshot
unfolding finalize_guard finalized
finalize_new l o c input_hash = do v ← reading (finalize_guard c); finalized o c input_hash v.0 v.1

unfoldable pub finalize_prd : Library → Outside → FinalizePrd → Action WorkflowSnapshot
unfolding finalize_new once
finalize_prd l o c =
    let input_hash =
      l.sha256_json
        (finalize_input c.task_id c.document_id c.content_hash c.expected_task_version) in
    once c.actor_id c.idempotency_key input_hash (finalize_new l o c input_hash)
