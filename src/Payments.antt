-- ===== src/Payments.antt =====
-- Payments of agents (backend/src/x402).
pub mod Authorizations
pub mod Rows
pub mod Matching
pub mod Guards
pub mod Service
