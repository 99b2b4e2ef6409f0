-- ===== src/Policies/Outlines.antt =====
-- OutlinePolicy of src/prd_agent/policies/outline_policy.py.
use prd_agent.Base.{nat_key, ℕ, length, is_empty, ltb, ◌==◌, if◌then◌else◌, Result, ok, err}
use prd_agent.Domain.Statuses.{is_pending_outline}
use prd_agent.Domain.Errors.{WorkflowError, invalid_transition}
use prd_agent.Domain.Entities.{OutlineVersion}

unfoldable pub confirm : OutlineVersion → ℕ → Result WorkflowError Unit
confirm outline requested_version =
    if outline.version == requested_version
    then (if is_pending_outline outline.status
        then (if is_empty outline.nodes
            then err invalid_transition
            else if is_empty outline.confirmation_units
            then err invalid_transition
            else if ltb 15 (length outline.confirmation_units)
            then err invalid_transition
            else ok tt)
        else err invalid_transition)
    else err invalid_transition
