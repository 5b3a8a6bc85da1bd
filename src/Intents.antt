-- ===== src/Intents.antt =====
-- Intents and their authorization (backend/src/intent).
pub mod Rows
pub mod Authorize
pub mod Create
mod Tests
