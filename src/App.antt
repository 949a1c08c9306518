-- ===== src/App.antt =====
-- internal/app: what a client may call, and how its requests are carried out.
pub mod Methods
pub mod Authorization
pub mod Idempotency
mod Examples
