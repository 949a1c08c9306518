-- ===== src/Domain.antt =====
-- internal/domain: the entities and their rules.
pub mod Errors
pub mod Id
pub mod Capability
pub mod Provider
pub mod Lease
pub mod Account
pub mod Session
mod Examples
