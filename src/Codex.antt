-- ===== src/Codex.antt =====
-- internal/providers/codex: the bridge to the codex process.
pub mod Approvals
mod Examples
