-- ===== src/Workflow/Outlining.antt =====
-- `_generate_outline` of src/prd_agent/workflow/service.py.
use prd_agent.Base.{
  text_key, ℕ, suc, max, String, true, false, Option, none, some, List, [], ◌∷◌, ◌==◌,
  if◌then◌else◌, Result, ok, err,
}
use prd_agent.Base.Dict.{Dict, get, put}
use prd_agent.Base.Texts.{is_blank}
use prd_agent.Domain.Statuses.{TaskStatus, RunStatus, OutlineStatus, UnitStatus, Complexity}
use prd_agent.Domain.Errors.{WorkflowError, other}
use prd_agent.Domain.Entities.{
  Task, AgentRun, OutlineNode, OutlineVersion, ConfirmationUnit, RequirementBrief, WorkflowSnapshot,
  number,
}
use prd_agent.Workflow.Repository.{Action, snapshot, save_outline, save_task}
use prd_agent.Workflow.Action.{◌>>=◌, ◌>>◌, checked, reading, writing}
use prd_agent.Workflow.Outside.{Outside, OutlineDraft, NodeDraft, UnitSpec, new_id}
use prd_agent.Workflow.Common.{advance, present}

-- max((item.version for item in outlines), default=0)
abbrev pub last_version : List OutlineVersion → ℕ
last_version [] = 0
last_version (outline ∷ outlines) = max outline.version (last_version outlines)

-- Complexity(value)
unfoldable pub complexity_of : String → Result WorkflowError Complexity
complexity_of value =
    if value == "LOW"
    then ok Complexity.low
    else if value == "MEDIUM"
    then ok Complexity.medium
    else if value == "HIGH"
    then ok Complexity.high
    else err other

-- node_ids_by_key[parent_key] if parent_key else None
abbrev pub parent_of : Dict String String → Option String → Result WorkflowError (Option String)
parent_of ids none = ok none
parent_of ids (some key) = elim (is_blank key) [
  | true ↦ ok none
  | false ↦ elim (get key ids) [ none ↦ err other | some id ↦ ok (some id) ]
]

-- The nodes from the i-th on, with the ids by key. A node may be its own parent by its key.
unfoldable pub build_nodes :
    Outside
    → ℕ
    → Dict String String
    → List NodeDraft
    → Result WorkflowError (List OutlineNode × Dict String String)
unfolding complexity_of
build_nodes o i ids [] = ok ([], ids)
build_nodes o i ids (draft ∷ drafts) =
    let node_id : String = new_id o "node" i in
    let with_id : Dict String String = put draft.key node_id ids in
    let rest = build_nodes o (suc i) with_id drafts in
    elim (complexity_of draft.complexity) [
      | err e ↦ err e
      | ok complexity ↦ elim (parent_of with_id draft.parent_key) [
        | err e ↦ err e
        | ok parent_id ↦ elim rest [
          | err e ↦ err e
          | ok (nodes, all_ids) ↦
              let node : OutlineNode = record {
                node_id = node_id;
                sequence = suc i;
                title = draft.title;
                purpose = draft.purpose;
                complexity = complexity;
                required_information = draft.required_information;
                parent_id = parent_id;
                level = draft.level;
                stable_key = some draft.key;
              } in
              ok (node ∷ nodes, all_ids)
        ]
      ]
    ]

-- {key: _id("unit") for each unit}
unfoldable pub unit_ids : Outside → ℕ → Dict String String → List UnitSpec → Dict String String
unit_ids o i ids [] = ids
unit_ids o i ids (spec ∷ specs) = unit_ids o (suc i) (put spec.key (new_id o "unit" i) ids) specs

-- tuple(ids[key] for key in keys)
unfoldable pub look_up : Dict String String → List String → Result WorkflowError (List String)
look_up ids [] = ok []
look_up ids (key ∷ keys) =
    let rest = look_up ids keys in
    elim (get key ids) [
      | none ↦ err other
      | some id ↦ elim rest [ err e ↦ err e | ok found ↦ ok (id ∷ found) ]
    ]

abbrev pub new_unit : String → String → ℕ → String → List String → List String → ConfirmationUnit
new_unit unit_id outline_id sequence title node_ids depends_on_unit_ids = record {
  unit_id = unit_id;
  outline_id = outline_id;
  sequence = sequence;
  title = title;
  status = UnitStatus.pending;
  content = none;
  version = 1;
  node_ids = node_ids;
  depends_on_unit_ids = depends_on_unit_ids;
  content_hash = none;
  grounding_run_id = none;
  quality_run_id = none;
  section_drafts = [];
}

unfoldable pub build_unit :
    Dict String String
    → Dict String String
    → String
    → ℕ
    → UnitSpec
    → Result WorkflowError ConfirmationUnit
unfolding look_up
build_unit units nodes outline_id sequence spec = elim (get spec.key units) [
  | none ↦ err other
  | some unit_id ↦ elim (look_up nodes spec.node_keys) [
    | err e ↦ err e
    | ok node_ids ↦ elim (look_up units spec.depends_on_unit_keys) [
      | err e ↦ err e
      | ok depends_on ↦ ok (new_unit unit_id outline_id sequence spec.title node_ids depends_on)
    ]
  ]
]

unfoldable pub build_units :
    Dict String String
    → Dict String String
    → String
    → ℕ
    → List UnitSpec
    → Result WorkflowError (List ConfirmationUnit)
unfolding build_unit
build_units units nodes outline_id sequence [] = ok []
build_units units nodes outline_id sequence (spec ∷ specs) =
    let rest = build_units units nodes outline_id (suc sequence) specs in
    elim (build_unit units nodes outline_id sequence spec) [
      | err e ↦ err e
      | ok unit ↦ elim rest [ err e ↦ err e | ok built ↦ ok (unit ∷ built) ]
    ]

-- The outline that is built from the draft.
unfoldable pub outline_of :
    Outside → String → ℕ → OutlineDraft → Result WorkflowError OutlineVersion
unfolding build_nodes build_units unit_ids
outline_of o task_id version draft =
    let outline_id : String = new_id o "outline" 0 in
    elim (build_nodes o 0 [] draft.nodes) [
      | err e ↦ err e
      | ok (nodes, node_ids) ↦
          elim (build_units (unit_ids o 0 [] draft.units) node_ids outline_id 1 draft.units) [
            | err e ↦ err e
            | ok units ↦ ok (record {
              outline_id = outline_id;
              task_id = task_id;
              version = version;
              title = draft.title;
              status = OutlineStatus.pending_confirmation;
              nodes = nodes;
              confirmation_units = units;
              created_at = o.now 20;
              confirmed_at = none;
            })
          ]
    ]

-- The writes, once the outline is built and the transition is allowed.
unfoldable pub save_generated : Outside → Task → AgentRun → OutlineVersion → Action WorkflowSnapshot
save_generated o task run outline = do
  writing (save_outline outline)
  writing (save_task task)
  present o task run 20 22 "OutlineGenerated" (("outline_version", number outline.version) ∷ [])
      "WAIT_OUTLINE_CONFIRMATION"

unfoldable pub generate_outline :
    Outside → Task → AgentRun → RequirementBrief → Action WorkflowSnapshot
unfolding advance outline_of save_generated
generate_outline o task run brief = do
  draft ← checked (o.outline brief)
  previous ← reading (snapshot task.task_id)
  outline ← checked (outline_of o task.task_id (suc (last_version previous.outlines)) draft)
  advanced ← checked (advance task TaskStatus.outline_review task.version)
  save_generated o
      (record advanced { current_outline_version = some outline.version; updated_at = o.now 21 })
      (record run { status = RunStatus.waiting_user }) outline
