-- ===== src/Domain/Commands.antt =====
-- The commands of src/prd_agent/domain/commands.py that the workflow service handles.
use prd_agent.Base.{ℕ, String, List}

pub record StartTask : Type 0 where
  pub message : String
  pub idempotency_key : String
  pub actor_id : String

pub record ReplyToTask : Type 0 where
  pub task_id : String
  pub message : String
  pub expected_task_version : ℕ
  pub idempotency_key : String
  pub actor_id : String

pub record ConfirmOutline : Type 0 where
  pub task_id : String
  pub outline_version : ℕ
  pub expected_task_version : ℕ
  pub idempotency_key : String
  pub actor_id : String

pub record ConfirmUnit : Type 0 where
  pub task_id : String
  pub unit_id : String
  pub expected_task_version : ℕ
  pub idempotency_key : String
  pub actor_id : String

pub record FinalizePrd : Type 0 where
  pub task_id : String
  pub document_id : String
  pub content_hash : String
  pub expected_task_version : ℕ
  pub idempotency_key : String
  pub actor_id : String

pub record ApproveRevisionPlan : Type 0 where
  pub task_id : String
  pub document_id : String
  pub issue_ids : List String
  pub unit_ids : List String
  pub expected_task_version : ℕ
  pub idempotency_key : String
  pub actor_id : String

pub record ReopenPrd : Type 0 where
  pub task_id : String
  pub unit_ids : List String
  pub reason : String
  pub expected_task_version : ℕ
  pub idempotency_key : String
  pub actor_id : String
