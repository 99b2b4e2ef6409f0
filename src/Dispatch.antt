-- ===== src/Dispatch.antt =====
-- src/prd_agent/production/dispatch.py: the production control store, its publisher and executor.
pub mod Model
pub mod Admission
pub mod Outbox
pub mod Runs
pub mod Recovery
pub mod Step
pub mod Machine
pub mod Refines
pub mod Fencing
pub mod Terminal
pub mod Fairness
pub mod Turns
pub mod Leases
pub mod Claims
pub mod Redelivery
pub mod Lost
mod Tests
