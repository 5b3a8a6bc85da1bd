-- ===== src/Policy.antt =====
-- The policy of the first version (backend/src/policy).
pub mod Engine
pub mod Bands
pub mod Challenges
pub mod Tests
