-- ===== src/Domain/Entities.antt =====
-- The entities of src/prd_agent/domain/entities.py. Times are microseconds since a fixed instant.
use prd_agent.Base.{ℕ, String, Bool, not, ◌||◌, Option, List, [], filter, last, is_empty}
use prd_agent.Domain.Statuses.{
  TaskStatus, RunStatus, OutlineStatus, UnitStatus, SectionStatus, DocumentStatus, Complexity,
  is_superseded,
}
use prd_agent.Domain.Outcomes.{QualityResult, GroundingResult}

pub record Task : Type 0 where
  pub task_id : String
  pub title : Option String
  pub status : TaskStatus
  pub version : ℕ
  pub current_outline_version : Option ℕ
  pub current_unit_sequence : Option ℕ
  pub created_at : ℕ
  pub updated_at : ℕ
  pub owner_id : String

pub record RequirementBrief : Type 0 where
  pub problem : String
  pub target_users : List String
  pub scenarios : List String
  pub goals : List String
  pub scope_in : List String
  pub scope_out : List String
  pub product_rules : List String
  pub success_metrics : List String
  pub current_state_fact_ids : List String
  pub target_decisions : List String
  pub authorized_assumptions : List String
  pub agent_suggestions : List String
  pub open_questions : List String
  pub unknown_item_ids : List String
  pub source_conflict_ids : List String

-- A brief with a problem and open questions alone.
abbrev pub brief_of : String → List String → RequirementBrief
brief_of problem open_questions = record {
  problem = problem;
  target_users = [];
  scenarios = [];
  goals = [];
  scope_in = [];
  scope_out = [];
  product_rules = [];
  success_metrics = [];
  current_state_fact_ids = [];
  target_decisions = [];
  authorized_assumptions = [];
  agent_suggestions = [];
  open_questions = open_questions;
  unknown_item_ids = [];
  source_conflict_ids = [];
}

unfoldable pub needs_clarification : RequirementBrief → Bool
needs_clarification b =
    not (is_empty b.open_questions)
    || (is_empty b.target_users || is_empty b.scenarios || is_empty b.goals || is_empty b.scope_in)

pub record RequirementBriefVersion : Type 0 where
  pub task_id : String
  pub version : ℕ
  pub brief : RequirementBrief
  pub confirmed : Bool
  pub created_at : ℕ

pub record OutlineNode : Type 0 where
  pub node_id : String
  pub sequence : ℕ
  pub title : String
  pub purpose : String
  pub complexity : Complexity
  pub required_information : List String
  pub parent_id : Option String
  pub level : ℕ
  pub stable_key : Option String

pub record SectionDraft : Type 0 where
  pub node_id : Option String
  pub title : String
  pub content : String
  pub content_hash : String

pub record ConfirmationUnit : Type 0 where
  pub unit_id : String
  pub outline_id : String
  pub sequence : ℕ
  pub title : String
  pub status : UnitStatus
  pub content : Option String
  pub version : ℕ
  pub node_ids : List String
  pub depends_on_unit_ids : List String
  pub content_hash : Option String
  pub grounding_run_id : Option String
  pub quality_run_id : Option String
  pub section_drafts : List SectionDraft

pub record OutlineVersion : Type 0 where
  pub outline_id : String
  pub task_id : String
  pub version : ℕ
  pub title : String
  pub status : OutlineStatus
  pub nodes : List OutlineNode
  pub confirmation_units : List ConfirmationUnit
  pub created_at : ℕ
  pub confirmed_at : Option ℕ

pub record AgentRun : Type 0 where
  pub run_id : String
  pub task_id : String
  pub thread_id : String
  pub graph_name : String
  pub graph_version : String
  pub status : RunStatus
  pub input_hash : String
  pub idempotency_key : String
  pub started_at : Option ℕ
  pub ended_at : Option ℕ
  pub error : Option String

pub record TaskMessage : Type 0 where
  pub message_id : String
  pub task_id : String
  pub actor_id : String
  pub content : String
  pub created_at : ℕ

pub record PrdSectionVersion : Type 0 where
  pub section_id : String
  pub unit_id : String
  pub version : ℕ
  pub title : String
  pub content : String
  pub created_at : ℕ
  pub node_id : Option String
  pub status : SectionStatus
  pub content_hash : String
  pub source_run_id : Option String
  pub grounding_run_id : Option String
  pub quality_run_id : Option String
  pub supersedes_section_id : Option String
  pub confirmed_by : Option String
  pub confirmed_at : Option ℕ

pub record PrdDocumentVersion : Type 0 where
  pub document_id : String
  pub task_id : String
  pub version : ℕ
  pub markdown : String
  pub created_at : ℕ
  pub content_hash : String
  pub status : DocumentStatus
  pub section_ids : List String
  pub confirmed_by : Option String
  pub confirmed_at : Option ℕ

-- A value in the payload of an event.
pub data EventValue : Type 0 where
  text : String → EventValue
  number : ℕ → EventValue
  flag : Bool → EventValue
  texts : List String → EventValue

pub record DomainEvent : Type 0 where
  pub event_id : String
  pub task_id : String
  pub sequence : ℕ
  pub event_type : String
  pub payload : List (String × EventValue)
  pub created_at : ℕ

pub record IdempotencyRecord : Type 0 where
  pub actor_id : String
  pub idempotency_key : String
  pub input_hash : String
  pub task_id : String
  pub run_id : String
  pub created_at : ℕ

pub record WorkflowSnapshot : Type 0 where
  pub task : Task
  pub run : AgentRun
  pub briefs : List RequirementBriefVersion
  pub outlines : List OutlineVersion
  pub sections : List PrdSectionVersion
  pub documents : List PrdDocumentVersion
  pub messages : List TaskMessage
  pub quality_results : List QualityResult
  pub grounding_results : List GroundingResult

unfoldable pub current_brief : WorkflowSnapshot → Option RequirementBriefVersion
current_brief s = last s.briefs

unfoldable pub current_outline : WorkflowSnapshot → Option OutlineVersion
current_outline s = last (filter (λ o. not (is_superseded o.status)) s.outlines)
