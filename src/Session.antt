-- ===== src/Session.antt =====
-- src/session.rs and src/routing.rs: who counts as a reviewer, when a quorum is reached, and whom a
-- message reaches.
pub mod Quorum
use openab_control_plane.Prelude.{ℕ, ℤ, pos, Bool, not, List, Option, filterb, length, leb_ℤ}
use openab_control_plane.Text.{Text, codes, is_text, contains}

abbrev pub done_emoji : Text
done_emoji = codes "🆗"

pub record ReviewerCompletion : Type 0 where
  pub required_valid_reviewers : ℤ
  pub valid_reviewers : ℤ

-- The roster without the chair.
unfoldable pub reviewers : List Text → Option Text → List Text
reviewers roster chair = filterb (λ bot. not (is_text bot chair)) roster

unfoldable pub quorum_reached : List Text → Option Text → List Text → ℤ → Bool
unfolding reviewers
quorum_reached roster chair done quorum_n =
    let voted = filterb (λ r. contains r done) (reviewers roster chair) in
    leb_ℤ quorum_n (pos (length voted))

-- Everyone but the author, who is `none` for a client or the system.
unfoldable pub fanout_targets : List Text → Option Text → List Text
fanout_targets roster author = filterb (λ bot. not (is_text bot author)) roster
