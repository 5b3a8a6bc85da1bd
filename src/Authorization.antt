-- ===== src/Authorization.antt =====
-- Deciding and enforcing what an actor may do (backend/src/authorization).
pub mod Request
pub mod Rules
pub mod Enforcement
pub mod Cache
