-- ===== src/Storage.antt =====
-- internal/storage: the SQLite tables and the statements over them.
pub mod Driver
pub mod Table
pub mod Leases
pub mod Links
pub mod Sessions
pub mod Approvals
pub mod Vault
pub mod Previews
pub mod Rows
pub mod Registry
mod Examples
