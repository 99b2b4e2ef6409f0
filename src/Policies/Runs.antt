-- ===== src/Policies/Runs.antt =====
-- RunPolicy of src/prd_agent/policies/run_policy.py, validate_replay of
-- src/prd_agent/policies/idempotency.py.
use prd_agent.Base.{
  text_key, String, ◌&&◌, not, List, filter, is_empty, ◌==◌, if◌then◌else◌, Result, ok, err,
}
use prd_agent.Domain.Statuses.{is_active, is_retryable}
use prd_agent.Domain.Errors.{
  WorkflowError, invalid_transition, active_run_conflict, idempotency_conflict,
}
use prd_agent.Domain.Entities.{AgentRun, IdempotencyRecord}

unfoldable pub ensure_single_active : List AgentRun → String → Result WorkflowError Unit
ensure_single_active runs candidate_run_id =
    if is_empty (filter (λ run. not (run.run_id == candidate_run_id) && is_active run.status) runs)
    then ok tt
    else err active_run_conflict

unfoldable pub ensure_stoppable : AgentRun → Result WorkflowError Unit
ensure_stoppable run = if is_active run.status then ok tt else err invalid_transition

unfoldable pub ensure_retryable : AgentRun → Result WorkflowError Unit
ensure_retryable run = if is_retryable run.status then ok tt else err invalid_transition

unfoldable pub validate_replay : IdempotencyRecord → String → Result WorkflowError String
validate_replay replay input_hash =
    if replay.input_hash == input_hash then ok replay.task_id else err idempotency_conflict
