-- ===== src/Review/Deciding/Recount.antt =====
-- crates/github-pr-controller/src/deciding.rs: what a judgement can change on a pull request.
use openab_control_plane.Prelude.{
  ℕ, ℤ, not, ◌&&◌, Option, none, ◌≡◌, refl, inl, inr, ◌↔◌, Bool, true, some, List, arith, All,
  All-append, Bool-cases,
}
use openab_control_plane.Text.{Text, codes}
use openab_control_plane.Review.Rows.{
  ReviewFindingRow, Payload, comment_payload, status_payload, review_payload,
}
use openab_control_plane.Review.Deciding.Defs.{
  open_counts, is_blocking, plan_decision, comment_write, approval_writes,
}
use openab_control_plane.Review.Deciding.Counts.{IsBlocker, is_blocking-open_counts}

-- What the author's judgement may cause: nothing but an approval can come of it, and that only
-- where no blocker is left on the head.
abbrev pub OnlyUnblocks : Text → List ReviewFindingRow → Bool → Bool → Payload → Type 0
OnlyUnblocks head_sha findings was_blocking authorized (comment_payload repo number id body) = Unit
OnlyUnblocks head_sha findings was_blocking authorized
      (status_payload repo sha commit state context text) =
    (state ≡ codes "success")
    × (sha ≡ head_sha)
    × (commit ≡ head_sha)
    × (was_blocking ≡ true)
    × (authorized ≡ true)
    × All (λ row. ¬ IsBlocker head_sha row) findings
OnlyUnblocks head_sha findings was_blocking authorized
      (review_payload repo number event commit body) =
    (event ≡ codes "APPROVE")
    × (commit ≡ head_sha)
    × (was_blocking ≡ true)
    × (authorized ≡ true)
    × All (λ row. ¬ IsBlocker head_sha row) findings

comment_write-OnlyUnblocks :
    (repo : Text) (pr_number : ℤ) (head_sha : Text) (findings : List ReviewFindingRow)
    (was_blocking authorized : Bool) (verdict_comment : Option (ℤ × Text)) (deciding : ℕ)
    → All
        (λ w. OnlyUnblocks head_sha findings was_blocking authorized w.1)
        (comment_write repo pr_number verdict_comment deciding)
comment_write-OnlyUnblocks repo pr_number head_sha findings was_blocking authorized none deciding =
    tt
comment_write-OnlyUnblocks repo pr_number head_sha findings was_blocking authorized (some c)
      deciding =
    (tt, tt)

module _ (repo : Text) (pr_number : ℤ) (head_sha : Text) (findings : List ReviewFindingRow)
    (was_blocking approval_authorized : Bool) (verdict_comment : Option (ℤ × Text))
    (session_id : Text) where
  -- Each write of a judgement's plan is a comment, or it approves the pull request's head, and that
  -- only where the round blocked before, the approval is authorised, and no red or yellow finding is
  -- open on the head any more.
  pub plan_decision-OnlyUnblocks :
      (deciding : ℕ)
      → All
          (λ w. OnlyUnblocks head_sha findings was_blocking approval_authorized w.1)
          (plan_decision repo pr_number head_sha findings was_blocking approval_authorized
            verdict_comment session_id deciding).writes
  unfolding plan_decision approval_writes
  plan_decision-OnlyUnblocks deciding =
      let counts = open_counts findings head_sha in
      All-append _ (comment_write repo pr_number verdict_comment deciding) _
        (comment_write-OnlyUnblocks repo pr_number head_sha findings was_blocking
          approval_authorized verdict_comment deciding)
        (elim (Bool-cases (was_blocking && not (is_blocking counts) && approval_authorized)) [
          | inl y ↦
              let clear = (is_blocking-open_counts findings head_sha).0 (ground arith) in
              rw y (
                (refl, refl, refl, ground arith, ground arith, clear),
                ((refl, refl, ground arith, ground arith, clear), tt),
              )
          | inr n ↦ rw n tt
        ])

  -- The decision of a judgement's plan reads "approve" exactly where no red or yellow finding is
  -- open on the head.
  pub plan_decision-approves :
      (deciding : ℕ)
      → ((plan_decision repo pr_number head_sha findings was_blocking approval_authorized
            verdict_comment session_id deciding).decision
          ≡ codes "approve")
        ↔ All (λ row. ¬ IsBlocker head_sha row) findings
  unfolding plan_decision
  plan_decision-approves deciding = (
    λ h.
        (is_blocking-open_counts findings head_sha).0
          (elim (Bool-cases (is_blocking (open_counts findings head_sha))) [
            | inl y ↦ absurd (cc (rw y at h))
            | inr n ↦ n
          ]),
    λ h. rw ((is_blocking-open_counts findings head_sha).1 h),
  )
