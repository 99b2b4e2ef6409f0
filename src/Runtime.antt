-- ===== src/Runtime.antt =====
-- agent-python/agent/runtime: the budget and the execution ledger of a run.
pub mod Budget
pub mod Entries
pub mod Ledger
pub mod Step
pub mod Credit
pub mod Bounds
pub mod Replay
mod Tests
