-- ===== src/World.antt =====
-- Proofs of World ID (backend/src/world).
pub mod Replay
pub mod Binding
mod Tests
