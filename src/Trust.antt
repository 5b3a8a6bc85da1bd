-- ===== src/Trust.antt =====
-- Trust (backend/src/trust).
pub mod Vector
pub mod Bands
pub mod Mutation
pub mod Signals
pub mod Execution
mod Tests
