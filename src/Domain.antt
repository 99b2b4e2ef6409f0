-- ===== src/Domain.antt =====
-- src/prd_agent/domain: the statuses, entities, commands and errors of the workflow.
pub mod Statuses
pub mod Errors
pub mod Entities
pub mod Outcomes
pub mod Commands
