-- ===== src/Review.antt =====
-- crates/github-pr-controller/src: the controller that turns council sessions into reviews.
pub mod Rows
pub mod Verdict
pub mod Closing
pub mod Deciding
pub mod Planner
pub mod Dispatch
