-- ===== src/Runtime.antt =====
-- internal/runtime: the manager of the running sessions.
pub mod Leases
pub mod Ring
pub mod Input
