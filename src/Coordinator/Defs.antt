-- ===== src/Coordinator/Defs.antt =====
-- src/coordinator.rs: the view that a coordinator decides from, and the actions that it returns.
use openab_control_plane.Prelude.{ℕ, ℤ, List, Option}
use openab_control_plane.Text.{Text}
use openab_control_plane.Store.{SessionState}

-- The answers of the trait's methods for one session; the two attempt counts are at least 0.
pub record Ctx : Type 0 where
  pub session_id : Text
  pub roster : List Text
  pub chair : Option Text
  pub quorum_n : ℤ
  pub done_voters : List Text
  pub latest_settled : Text → Option Text
  pub state : SessionState
  pub trigger_ref : Option Text
  pub synthesis_attempts : ℕ
  pub chair_candidates : List Text

pub data Action : Type 0 where
  relay : Text → Text → Action  -- from, to
  prompt : Text → Text → Action  -- to, content
  transition : SessionState → SessionState → Action  -- from, to
  close : SessionState → Text → Text → Action  -- from, author, verdict
  reassign_chair : Text → Action  -- to
  trim_reviewer : Text → Action  -- bot

pub record StructuredVerdict : Type 0 where
  pub decision : Text
  pub red : Option ℤ
  pub yellow : Option ℤ
  pub green : Option ℤ
