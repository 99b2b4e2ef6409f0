-- ===== src/Domain/Errors.antt =====
-- The errors of src/prd_agent/domain/errors.py, without their texts. `other` stands for every
-- exception that is none of them.
pub data WorkflowError : Type 0 where
  invalid_command invalid_transition version_conflict active_run_conflict : WorkflowError
  idempotency_conflict not_found model_output_error other : WorkflowError
