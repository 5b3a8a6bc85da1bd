-- ===== src/Control.antt =====
-- The control plane (backend/src/control).
pub mod Auth
pub mod Pending
pub mod Rows
pub mod Decide
pub mod Sessions
