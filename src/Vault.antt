-- ===== src/Vault.antt =====
-- internal/vault: the portable vault over the tables of Storage.Vault.
pub mod Fields
pub mod Crypto
pub mod Manager
pub mod Sealing
pub mod Opening
pub mod History
mod Examples
