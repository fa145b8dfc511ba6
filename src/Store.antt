-- ===== src/Store.antt =====
-- src/store.rs: the session store.
mod Types
pub mod Json
pub mod Audit
pub mod Database
pub mod Events
pub mod Actions
pub mod Sessions
pub mod Outbox
pub mod Installations
pub mod FinalMessages
unfoldable pub use Types.*
unfoldable pub use FinalMessages.*
