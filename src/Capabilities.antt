-- ===== src/Capabilities.antt =====
-- Capabilities: what an actor may do, within which bounds (backend/src/capabilities).
pub mod Types
pub mod Amounts
pub mod Store
pub mod Check
pub mod Withdraw
pub mod Exercise
pub mod Tests
