-- ===== src/Authorization/Enforcement.antt =====
-- The boundaries that enforce a capability (backend/src/authorization/enforcement).
pub mod Adapter
pub mod Local
pub mod EnsEac
pub mod Service
pub mod Sweep
pub mod Execution
pub mod Tests
