-- ===== src/Device.antt =====
-- internal/device: what the daemon and its clients exchange.
pub mod Nonces
pub mod Json
pub mod Frames
mod Examples
