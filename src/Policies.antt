-- ===== src/Policies.antt =====
-- src/prd_agent/policies: the rules that guard the changes of state of the workflow.
pub mod Tasks
pub mod Runs
pub mod Outlines
pub mod Units
mod Tests
