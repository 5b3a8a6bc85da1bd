-- ===== src/Agents.antt =====
-- Agents and the authority that hangs from their assurance (backend/src/agents).
pub mod Lifecycle
pub mod Rows
pub mod Service
