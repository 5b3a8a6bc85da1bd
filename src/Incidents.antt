-- ===== src/Incidents.antt =====
-- Incidents (backend/src/incidents).
pub mod Severity
pub mod Recommendation
pub mod Status
pub mod Rows
pub mod Service
mod Tests
