-- ===== src/Coordinator.antt =====
-- src/coordinator.rs and src/plugins/triage/mod.rs: what a done-signal leads to. A coordinator is
-- pure: it reads a view of the session and returns actions, which the orchestrator carries out.
mod Defs
pub mod Quorum
pub mod Modes
unfoldable pub use Defs.*
unfoldable pub use Quorum.*
unfoldable pub use Modes.*
