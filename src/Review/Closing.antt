-- ===== src/Review/Closing.antt =====
-- crates/github-pr-controller/src/closing.rs: turning a closed session into GitHub writes.
mod Integrity
mod Bodies
mod Plan
pub mod Commits
pub mod Authority
pub mod Submission
pub mod Outbox
pub mod Distinct
pub mod Tables
pub mod Refusal
unfoldable pub use Integrity.*
unfoldable pub use Bodies.*
unfoldable pub use Plan.*
