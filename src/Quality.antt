-- ===== src/Quality.antt =====
-- src/prd_agent/quality/service.py: the check of a document.
pub mod Service
pub mod Verdict
mod Tests
