-- ===== src/Claims.antt =====
-- The flow of a claim (backend/src/claim).
pub mod Rows
pub mod Orchestrator
