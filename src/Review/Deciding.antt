-- ===== src/Review/Deciding.antt =====
-- crates/github-pr-controller/src/deciding.rs: an author's judgement on a finding.
mod Defs
mod Texts
mod Replies
pub mod Counts
pub mod Recount
pub mod Kinds
unfoldable pub use Defs.*
unfoldable pub use Texts.*
unfoldable pub use Replies.*
