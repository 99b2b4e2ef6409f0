-- ===== src/Export.antt =====
-- src/prd_agent/export: the store of export intents, runs, replays and bindings.
pub mod Model
pub mod Store
pub mod Step
pub mod Claims
pub mod Bindings
pub mod Exclusive
pub mod Replays
mod Tests
