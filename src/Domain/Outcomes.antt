-- ===== src/Domain/Outcomes.antt =====
-- What the checks of grounding and quality return, of src/prd_agent/grounding/models.py and
-- src/prd_agent/quality/models.py: those of grounding with the fields that the workflow reads.
use prd_agent.Base.{String, Bool, List}

pub data ClaimKind : Type 0 where
  current_state historical_context target_decision assumption recommendation unknown : ClaimKind
  risk : ClaimKind

pub data ClaimCriticality : Type 0 where
  critical material informational : ClaimCriticality

pub record PrdClaim : Type 0 where
  pub claim_id : String
  pub text : String
  pub kind : ClaimKind
  pub criticality : ClaimCriticality
  pub fact_ids : List String
  pub decision_ids : List String
  pub assumption_ids : List String

pub record GroundingResult : Type 0 where
  pub grounding_run_id : String
  pub task_id : String
  pub unit_id : String
  pub confirmable : Bool
  pub issues : List String

pub data QualityScope : Type 0 where
  unit document : QualityScope

pub data QualitySeverity : Type 0 where
  blocker error warning info : QualitySeverity

pub data QualityIssueType : Type 0 where
  outline_coverage empty_or_duplicate_content terminology_inconsistency rule_conflict state_flow_gap
        role_permission_conflict exception_gap boundary_gap acceptance_not_executable
        assumption_not_labeled open_item_unresolved source_link_incomplete :
      QualityIssueType

pub record QualityIssue : Type 0 where
  pub issue_id : String
  pub issue_type : QualityIssueType
  pub severity : QualitySeverity
  pub affected_node_ids : List String
  pub affected_unit_ids : List String
  pub affected_section_ids : List String
  pub description : String
  pub suggested_resolution : String

pub record QualityResult : Type 0 where
  pub quality_run_id : String
  pub task_id : String
  pub scope : QualityScope
  pub scope_id : String
  pub confirmable : Bool
  pub issues : List QualityIssue
