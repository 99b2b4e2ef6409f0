-- ===== src/Workflow/Outside.antt =====
-- What the service takes from outside during one command: new ids, the clock, the answers of the
-- model, of the investigation, of grounding and of quality; and the hashes and texts that it
-- takes from Python's library.
use Prim.Native.String.{◌++◌ as text_append}
use prd_agent.Base.{ℕ, String, Option, List, Result}
use prd_agent.Domain.Errors.{WorkflowError}
use prd_agent.Domain.Outcomes.{PrdClaim, GroundingResult, QualityResult}
use prd_agent.Domain.Entities.{
  Task, AgentRun, OutlineVersion, ConfirmationUnit, OutlineNode, RequirementBrief,
  PrdSectionVersion,
}

-- A node of a validated outline draft.
pub record NodeDraft : Type 0 where
  pub key : String
  pub title : String
  pub purpose : String
  pub complexity : String
  pub required_information : List String
  pub parent_key : Option String
  pub level : ℕ

-- A confirmation unit of a validated outline draft.
pub record UnitSpec : Type 0 where
  pub key : String
  pub title : String
  pub node_keys : List String
  pub depends_on_unit_keys : List String

pub record OutlineDraft : Type 0 where
  pub title : String
  pub nodes : List NodeDraft
  pub units : List UnitSpec

pub record SectionContent : Type 0 where
  pub node_key : String
  pub title : String
  pub content : String

-- A validated draft of a confirmation unit.
pub record UnitDraft : Type 0 where
  pub content : String
  pub claims : List PrdClaim
  pub sections : List SectionContent

-- A confirmed section as the model is shown it.
pub record ContextSection : Type 0 where
  pub section_id : String
  pub unit_id : String
  pub node_id : Option String
  pub version : ℕ
  pub title : String
  pub content : String
  pub content_hash : String

-- What the model is asked for a unit. The context of the investigation is a text to the service.
pub record UnitPayload : Type 0 where
  pub requirement_brief : RequirementBrief
  pub outline_title : String
  pub outline_version : ℕ
  pub nodes : List OutlineNode
  pub unit_sequence : ℕ
  pub unit_title : String
  pub confirmed_context : List ContextSection
  pub investigation_context : Option String

-- What grounding is asked.
pub record GroundingQuestion : Type 0 where
  pub grounding_run_id : String
  pub task_id : String
  pub unit_id : String
  pub content : String
  pub claims : List PrdClaim
  pub context : Option String

-- The dictionaries that the commands are hashed as.
pub data CommandInput : Type 0 where
  start_task : String → CommandInput
  reply_to_task : String → String → ℕ → CommandInput
  confirm_outline : String → ℕ → ℕ → CommandInput
  confirm_unit : String → String → ℕ → CommandInput
  approve_revision_plan : String → String → List String → List String → ℕ → CommandInput
  reopen_prd : String → List String → String → ℕ → CommandInput
  finalize_prd : String → String → String → ℕ → CommandInput

-- Hashes, and the functions of `str` and `int` that are not written out.
pub record Library : Type 0 where
  pub sha256_json : CommandInput → String
  pub hexdigest : String → String
  pub lower : String → String

-- `hex prefix i` is the i-th new id of the prefix in the command, `now i` the i-th reading of the
-- clock. A service that is not configured is none.
pub record Outside : Type 0 where
  pub hex : String → ℕ → String
  pub now : ℕ → ℕ
  pub error_text : WorkflowError → String
  pub requirement_brief : String → Option RequirementBrief → Result WorkflowError RequirementBrief
  pub outline : RequirementBrief → Result WorkflowError OutlineDraft
  pub unit_context : Option (
      Task
      → AgentRun
      → OutlineVersion
      → ConfirmationUnit
      → RequirementBrief
      → Result WorkflowError String)
  pub unit_draft : UnitPayload → List String → Result WorkflowError UnitDraft
  pub ground : Option (GroundingQuestion → Result WorkflowError GroundingResult)
  pub check_document : Option (
      String
      → String
      → String
      → OutlineVersion
      → List PrdSectionVersion
      → Result WorkflowError QualityResult)
  pub evidence_appendix : List GroundingResult → String

-- _id(prefix)
abbrev pub new_id : Outside → String → ℕ → String
new_id o prefix i = text_append prefix (text_append "-" (o.hex prefix i))
