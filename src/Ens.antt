-- ===== src/Ens.antt =====
-- Roles on the ENS registry (backend/src/ens).
pub mod Roles
