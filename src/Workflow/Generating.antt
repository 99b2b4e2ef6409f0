-- ===== src/Workflow/Generating.antt =====
-- `_generate_unit` and `_generate_unit_inner` of src/prd_agent/workflow/service.py. The objects
-- that they change in place, and that a raise leaves changed, are `Locals`.
use Prim.Native.String.{◌++◌ as text_append}
use prd_agent.Base.{
  text_key, nat_key, ℕ, suc, String, Bool, true, false, ◌&&◌, ◌||◌, Option, none, some, List, [],
  ◌∷◌, map, filter, length, is_empty, is_some, if◌then◌else◌, Result, ok, err,
}
use prd_agent.Base.Dict.{Dict, get, put, values}
use prd_agent.Base.Texts.{is_blank, text_take, text_drop}
use prd_agent.Domain.Statuses.{TaskStatus, RunStatus, UnitStatus, is_failed}
use prd_agent.Domain.Errors.{WorkflowError, model_output_error, other}
use prd_agent.Domain.Outcomes.{PrdClaim, ClaimKind, ClaimCriticality, GroundingResult}
use prd_agent.Domain.Entities.{
  Task, AgentRun, OutlineNode, OutlineVersion, ConfirmationUnit, SectionDraft, RequirementBrief,
  PrdSectionVersion, WorkflowSnapshot, EventValue, text, number,
}
use prd_agent.Workflow.Repository.{
  Repository, Action, snapshot, save_outline, save_task, save_run, save_grounding_result,
}
use prd_agent.Workflow.Outside.{
  Outside, Library, UnitPayload, UnitDraft, SectionContent, GroundingQuestion, new_id,
}
use prd_agent.Workflow.Closure.{contains}
use prd_agent.Workflow.Sections.{build_confirmed_context}
use prd_agent.Workflow.Common.{
  advance, event, checkpoint, content_hash, contains_unlisted_current_state_claim, with_unit,
}

pub record Locals : Type 0 where
  pub task : Task
  pub run : AgentRun
  pub outline : OutlineVersion
  pub unit : ConfirmationUnit

pub data Attempt : Type 0 where
  done : WorkflowSnapshot → Attempt
  raised : WorkflowError → Locals → Attempt

-- node.stable_key or node.node_id
abbrev pub node_key : OutlineNode → String
node_key node = elim node.stable_key [
  | none ↦ node.node_id
  | some key ↦ if is_blank key then node.node_id else key
]

-- The nodes of the unit; all nodes for a unit that names none.
abbrev pub nodes_of : Locals → List OutlineNode
nodes_of v =
    filter (λ node. is_empty v.unit.node_ids || contains v.unit.node_ids node.node_id)
      v.outline.nodes

abbrev pub index_nodes : Dict String OutlineNode → List OutlineNode → Dict String OutlineNode
index_nodes index [] = index
index_nodes index (node ∷ nodes) = index_nodes (put (node_key node) node index) nodes

abbrev pub keys : Dict String OutlineNode → List String
keys index = map (λ entry. entry.0) index

unfoldable pub payload_of :
    Locals → RequirementBrief → List PrdSectionVersion → Option String → UnitPayload
payload_of v brief sections context = record {
  requirement_brief = brief;
  outline_title = v.outline.title;
  outline_version = v.outline.version;
  nodes = nodes_of v;
  unit_sequence = v.unit.sequence;
  unit_title = v.unit.title;
  confirmed_context = build_confirmed_context v.unit sections 4000;
  investigation_context = context;
}

-- investigation_context
unfoldable pub context_of :
    Outside → Locals → RequirementBrief → Result WorkflowError (Option String)
context_of o v brief = elim o.unit_context [
  | none ↦ ok none
  | some provider ↦ elim (provider v.task v.run v.outline v.unit brief) [
    | err e ↦ err e
    | ok context ↦ ok (some context)
  ]
]

-- What follows the save of the failed run.
abbrev pub fail_saved :
    Outside
    → ℕ
    → WorkflowError
    → Locals
    → Result WorkflowError Unit × Repository
    → Attempt × Repository
fail_saved o k e v (err conflict, s) = (raised conflict v, s)
fail_saved o k e v (ok saved, s) = (
  raised e v,
  checkpoint v.task v.run "GENERATE_FIRST_UNIT_FAILED" (
      event o k (suc (suc k)) v.task.task_id "RunFailed" (("node", text "GENERATE_FIRST_UNIT") ∷ [])
        s),
)

abbrev pub failed_run : Outside → ℕ → WorkflowError → AgentRun → AgentRun
failed_run o k e run = record run {
  status = RunStatus.failed;
  error = some (o.error_text e);
  ended_at = some (o.now (suc k));
}

-- The writes of a failure, where the task may fail.
unfoldable pub fail_task :
    Outside
    → ℕ
    → WorkflowError
    → Locals
    → Result WorkflowError Task
    → Repository
    → Attempt × Repository
fail_task o k e v (err refused) s = (raised refused v, s)
fail_task o k e v (ok advanced) s =
    let task : Task = record advanced { updated_at = o.now k } in
    let run : AgentRun = failed_run o k e v.run in
    fail_saved o k e (record v { task = task; run = run })
      (save_run run (save_task task (save_outline v.outline s)))

-- Both handlers: the unit, the task and the run are saved as failed, and the error goes on.
unfoldable pub fail_run : Outside → ℕ → WorkflowError → Locals → Repository → Attempt × Repository
unfolding fail_task
fail_run o k e v s =
    let unit : ConfirmationUnit = record v.unit { status = UnitStatus.failed } in
    fail_task o k e (record v { unit = unit; outline = with_unit unit v.outline })
      (advance v.task TaskStatus.failed v.task.version) s

-- The drafts of the sections by the nodes that they are for.
unfoldable pub drafts_of :
    Library
    → Dict String OutlineNode
    → List SectionContent
    → Result WorkflowError (List SectionDraft)
drafts_of l index [] = ok []
drafts_of l index (item ∷ items) =
    let rest = drafts_of l index items in
    elim (get item.node_key index) [
      | none ↦ err other
      | some node ↦ elim rest [
        | err e ↦ err e
        | ok drafts ↦
            let draft : SectionDraft = record {
              node_id = some node.node_id;
              title = node.title;
              content = item.content;
              content_hash = content_hash l item.content;
            } in
            ok (draft ∷ drafts)
      ]
    ]

-- What `unit.section_drafts` becomes: a unit of one node has one draft.
unfoldable pub section_drafts_of :
    Library
    → Locals
    → Dict String OutlineNode
    → UnitDraft
    → Result WorkflowError (List SectionDraft)
unfolding drafts_of
section_drafts_of l v index draft =
    if is_empty draft.sections
    then elim (values index) [
      | [] ↦ ok v.unit.section_drafts
      | node ∷ others ↦
          if is_empty others
          then ok (
              record {
                node_id = some node.node_id;
                title = v.unit.title;
                content = draft.content;
                content_hash = content_hash l draft.content;
              }
              ∷ [])
          else ok v.unit.section_drafts
    ]
    else drafts_of l index draft.sections

-- The claims that are grounded: a text that speaks of the current state without claims is one.
unfoldable pub claims_of : Library → Outside → UnitDraft → List PrdClaim
claims_of l o draft =
    if is_some o.ground
      && (is_empty draft.claims && contains_unlisted_current_state_claim l draft.content)
    then (record {
      claim_id =
          text_append "claim-inventory-"
            (text_take 16 (text_drop 7 (content_hash l draft.content)));
      text = draft.content;
      kind = ClaimKind.current_state;
      criticality = ClaimCriticality.critical;
      fact_ids = [];
      decision_ids = [];
      assumption_ids = [];
    }
        ∷ [])
    else draft.claims

-- The repository as the service returns it, or the raise of reading it.
abbrev pub attempt_of :
    Locals → Result WorkflowError WorkflowSnapshot → Repository → Attempt × Repository
attempt_of v (err e) s = (raised e v, s)
attempt_of v (ok found) s = (done found, s)

-- What follows the save of the waiting run.
abbrev pub wait_saved :
    Outside
    → Locals
    → String
    → List (String × EventValue)
    → String
    → Result WorkflowError Unit × Repository
    → Attempt × Repository
wait_saved o v event_type payload node (err conflict, s) = (raised conflict v, s)
wait_saved o v event_type payload node (ok saved, s) =
    let t : Repository =
      checkpoint v.task v.run node (event o 30 30 v.task.task_id event_type payload s) in
    attempt_of v (snapshot v.task.task_id t) t

-- The unit waits for a person: the outline and the run are saved.
unfoldable pub wait_for_user :
    Outside
    → Locals
    → String
    → List (String × EventValue)
    → String
    → Repository
    → Attempt × Repository
wait_for_user o v event_type payload node s =
    let run : AgentRun = record v.run { status = RunStatus.waiting_user } in
    let outline : OutlineVersion = with_unit v.unit v.outline in
    wait_saved o (record v { run = run; outline = outline }) event_type payload node
      (save_run run (save_outline outline s))

-- The unit with its text.
abbrev pub generated_unit : Library → UnitDraft → ConfirmationUnit → ConfirmationUnit
generated_unit l draft unit = record unit {
  content = some draft.content;
  content_hash = some (content_hash l draft.content);
  status = UnitStatus.pending_confirmation;
  version = suc unit.version;
}

-- The unit is generated, and waits for confirmation.
unfoldable pub finish_unit :
    Library → Outside → Locals → UnitDraft → Repository → Attempt × Repository
unfolding wait_for_user
finish_unit l o v draft s =
    wait_for_user o (record v { unit = generated_unit l draft v.unit }) "UnitGenerated"
      (("unit_id", text v.unit.unit_id) ∷ []) "WAIT_UNIT_CONFIRMATION" s

-- The unit without a text, for a person to look at.
abbrev pub blocked_unit : ConfirmationUnit → ConfirmationUnit
blocked_unit unit = record unit {
  content = none;
  content_hash = none;
  section_drafts = [];
  status = UnitStatus.human_input_required;
  version = suc unit.version;
}

abbrev pub grounded_unit : GroundingResult → ConfirmationUnit → ConfirmationUnit
grounded_unit grounding unit = record unit { grounding_run_id = some grounding.grounding_run_id }

-- The unit cannot be confirmed: it waits for a person.
unfoldable pub block_unit : Outside → Locals → GroundingResult → Repository → Attempt × Repository
unfolding wait_for_user
block_unit o v grounding s =
    wait_for_user o (record v { unit = blocked_unit v.unit }) "UnitGroundingBlocked"
      (("unit_id", text v.unit.unit_id) ∷ ("issues", number (length grounding.issues)) ∷ [])
      "WAIT_GROUNDING_INPUT" s

-- The answer of grounding: a unit that cannot be confirmed loses its content.
unfoldable pub after_grounding :
    Library → Outside → Locals → UnitDraft → GroundingResult → Repository → Attempt × Repository
unfolding finish_unit block_unit
after_grounding l o v draft grounding s =
    let t : Repository = save_grounding_result v.task.task_id grounding s in
    let w : Locals = record v { unit = grounded_unit grounding v.unit } in
    if grounding.confirmable then finish_unit l o w draft t else block_unit o w grounding t

unfoldable pub question_of :
    Library → Outside → Locals → Option String → UnitDraft → GroundingQuestion
unfolding claims_of
question_of l o v context draft = record {
  grounding_run_id = new_id o "grounding" 0;
  task_id = v.task.task_id;
  unit_id = v.unit.unit_id;
  content = draft.content;
  claims = claims_of l o draft;
  context = context;
}

unfoldable pub with_draft :
    Library → Outside → Locals → Option String → UnitDraft → Repository → Attempt × Repository
unfolding after_grounding finish_unit section_drafts_of question_of
with_draft l o v context draft s =
    elim (section_drafts_of l v (index_nodes [] (nodes_of v)) draft) [
      | err e ↦ (raised e v, s)
      | ok drafts ↦
          let drafted : Locals = record v { unit = record v.unit { section_drafts = drafts } } in
          elim o.ground [
            | none ↦ finish_unit l o drafted draft s
            | some ground ↦ elim (ground (question_of l o v context draft)) [
              | err e ↦ (raised e drafted, s)
              | ok grounding ↦ after_grounding l o drafted draft grounding s
            ]
          ]
    ]

-- except ModelOutputError
abbrev pub is_model_error : WorkflowError → Bool
is_model_error model_output_error = true
is_model_error _ = false

unfoldable pub generate_unit_inner :
    Library → Outside → Locals → RequirementBrief → Repository → Attempt × Repository
unfolding context_of with_draft fail_run payload_of
generate_unit_inner l o v brief s = elim (context_of o v brief) [
  | err e ↦ (raised e v, s)
  | ok context ↦ elim (snapshot v.task.task_id s) [
    | err e ↦ (raised e v, s)
    | ok found ↦
        elim (o.unit_draft (payload_of v brief found.sections context)
          (keys (index_nodes [] (nodes_of v)))) [
            | err e ↦ if is_model_error e then fail_run o 40 e v s else (raised e v, s)
            | ok draft ↦ with_draft l o v context draft s
          ]
  ]
]

-- A handler's raise goes on.
abbrev pub outcome : Attempt × Repository → Result WorkflowError WorkflowSnapshot × Repository
outcome (done found, s) = (ok found, s)
outcome (raised e v, s) = (err e, s)

-- except Exception: what the inner part has not saved as failed is saved so.
unfoldable pub handle :
    Outside → Attempt × Repository → Result WorkflowError WorkflowSnapshot × Repository
unfolding fail_run
handle o (done found, s) = (ok found, s)
handle o (raised e v, s) =
    if is_failed v.run.status then (err e, s) else outcome (fail_run o 50 e v s)

unfoldable pub generate_unit :
    Library
    → Outside
    → Task
    → AgentRun
    → OutlineVersion
    → ConfirmationUnit
    → RequirementBrief
    → Action WorkflowSnapshot
unfolding generate_unit_inner handle
generate_unit l o task run outline unit brief s = handle o (
    generate_unit_inner l o (record { task = task; run = run; outline = outline; unit = unit })
      brief s)
