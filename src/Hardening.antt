-- ===== src/Hardening.antt =====
-- What a failing dependency means (backend/src/hardening).
pub mod Dependencies
mod Tests
