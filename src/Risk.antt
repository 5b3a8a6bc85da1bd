-- ===== src/Risk.antt =====
-- Risk scores (backend/src/risk).
pub mod Thresholds
mod Tests
