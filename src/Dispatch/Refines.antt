-- ===== src/Dispatch/Refines.antt =====
-- Each operation of the control store makes only moves of the abstract machine.
pub mod Admission
pub mod Runs
pub mod Outbox
pub mod History
