-- ===== src/Historical.antt =====
-- src/prd_agent/historical: how a section of a document is cut into chunks.
pub mod Chunking
pub mod Bounds
pub mod Sections
mod Tests
