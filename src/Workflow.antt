-- ===== src/Workflow.antt =====
-- src/prd_agent/workflow and src/prd_agent/storage/memory.py: the service and its repository.
pub mod Repository
pub mod Action
pub mod Outside
pub mod Closure
pub mod Sections
pub mod Common
pub mod Outlining
pub mod Generating
pub mod Starting
pub mod Confirming
pub mod Revising
pub mod Step
pub mod Evolution
pub mod Finality
mod Tests
