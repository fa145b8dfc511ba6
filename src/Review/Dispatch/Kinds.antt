-- ===== src/Review/Dispatch/Kinds.antt =====
-- crates/github-pr-controller/src/closing.rs and lib.rs: the kinds of the writes that close a round.
use openab_control_plane.Prelude.{
  ℤ, ◌≡◌, refl, ◌⊎◌, inl, inr, Bool, true, false, not, ◌&&◌, Option, some, none, List, [], ◌∷◌, All,
  All-append, arith, Bool-cases, Option-cases, is_some, some_inj, subst, >>=-eq-some,
}
use openab_control_plane.Text.{Text, codes, text_eq, contains, text_ops}
use openab_control_plane.Review.Verdict.{ParsedResult}
use openab_control_plane.Review.Rows.{SessionTarget, Write}
use openab_control_plane.Review.Closing.{
  ClosingPlan, IntegrityDecision, plan_ask, plan_sha_integrity_failure, plan_insufficient_reviewers,
  round_plan, plan_round, plan_close, kind_comment, kind_status, kind_review, status_writes,
  review_writes, integrity_of, canonical_target,
}
use openab_control_plane.Review.Closing.Outbox.{
  IsQueueable, plan_close-IsQueueable, AtMostOneReview, review_writes-AtMostOneReview,
}
use openab_control_plane.Review.Dispatch.{
  RuntimeEventEnvelope, is_ask, reviewer_gate_passed, gated_plan,
}

abbrev pub IsRoundKind : Write → Type 0
IsRoundKind w = (w.0 ≡ kind_comment) ⊎ (w.0 ≡ kind_status) ⊎ (w.0 ≡ kind_review)

status_writes-IsRoundKind :
    (target : SessionTarget) (sha : Option Text) (state description : Text)
    → All IsRoundKind (status_writes target sha state description)
status_writes-IsRoundKind target none state description = tt
status_writes-IsRoundKind target (some sha) state description = (inr (inl refl), tt)

reviews-IsRoundKind : (ws : List Write) → AtMostOneReview ws → All IsRoundKind ws
reviews-IsRoundKind [] h = tt
reviews-IsRoundKind (w ∷ []) h = (inr (inr h), tt)
reviews-IsRoundKind (w ∷ v ∷ ws) h = absurd h

plan_round-IsRoundKind :
    (target : SessionTarget) (parsed : ParsedResult) (comment_id : Option ℤ) (session_id : Text)
    (d : IntegrityDecision) {p : ClosingPlan}
    → plan_round target parsed comment_id session_id d ≡ some p
    → All IsRoundKind p.writes
unfolding plan_round round_plan
plan_round-IsRoundKind target parsed comment_id session_id d h =
    let (reviews, e, made) = >>=-eq-some (review_writes target parsed.trailer d session_id) _ h in
    subst (λ p. All IsRoundKind p.writes)
      (some_inj (round_plan target parsed comment_id session_id d reviews) _ made)
      (
        inl refl,
        All-append IsRoundKind (status_writes target d.target_commit_id _ _) reviews
            (status_writes-IsRoundKind target d.target_commit_id _ _)
            (reviews-IsRoundKind reviews
              (review_writes-AtMostOneReview target parsed.trailer d session_id e)),
      )

plan_close-IsRoundKind :
    (target : SessionTarget) (parsed : ParsedResult) (comment_id : Option ℤ) (session_id : Text)
    (asked : Bool) {p : ClosingPlan}
    → plan_close target parsed comment_id session_id asked ≡ some p
    → All IsRoundKind p.writes
unfolding plan_close
plan_close-IsRoundKind target parsed comment_id session_id true h =
    subst (λ p. All IsRoundKind p.writes)
      (some_inj (plan_ask target parsed comment_id session_id) _ h)
      (unfold plan_ask in (inl refl, tt))
plan_close-IsRoundKind target parsed comment_id session_id false {p} h =
    let d = integrity_of target parsed in
    let withhold = is_some parsed.trailer && not (text_eq d.disposition (codes "verified")) in
    elim (Bool-cases withhold) [
      | inl failed ↦
          subst (λ p. All IsRoundKind p.writes)
            (some_inj (plan_sha_integrity_failure target parsed.trailer comment_id session_id d) p
              (ground (arith, failed)))
            (unfold plan_sha_integrity_failure in
              (inl refl, status_writes-IsRoundKind target d.target_commit_id _ _))
      | inr round ↦
          plan_round-IsRoundKind target parsed comment_id session_id d {p = p}
            (ground (arith, round))
    ]

-- Whatever plan dispatch_terminal makes, its writes have the kinds of a round.
pub gated_plan-IsRoundKind :
    (target : SessionTarget) (parsed : ParsedResult) (event : RuntimeEventEnvelope)
    (session_id : Text) {p : ClosingPlan}
    → gated_plan target parsed event session_id ≡ some p
    → All IsRoundKind p.writes
unfolding gated_plan
gated_plan-IsRoundKind target parsed event session_id {p} h =
    elim (Bool-cases (reviewer_gate_passed target event)) [
      | inl y ↦
          plan_close-IsRoundKind target parsed none session_id (is_ask target) {p = p} (rw y at h)
      | inr n ↦
          subst (λ p. All IsRoundKind p.writes)
            (some_inj
              (plan_insufficient_reviewers target session_id target.required_valid_reviewers
                event.valid_reviewers)
              p (rw n at h))
            (unfold plan_insufficient_reviewers in
              (inl refl, status_writes-IsRoundKind target _ _ _))
    ]

insufficient-IsQueueable :
    (target : SessionTarget) (session_id : Text) (required valid : Option ℤ)
    → IsQueueable (plan_insufficient_reviewers target session_id required valid).writes
unfolding plan_insufficient_reviewers contains text_ops
insufficient-IsQueueable target session_id required valid =
    elim (Option-cases (canonical_target target)) [
      | inl e ↦ rw e (refl, (refl, tt))
      | inr (sha, e) ↦ rw e (refl, (refl, (refl, tt)))
    ]

pub gated_plan-IsQueueable :
    (target : SessionTarget) (parsed : ParsedResult) (event : RuntimeEventEnvelope)
    (session_id : Text) {p : ClosingPlan}
    → gated_plan target parsed event session_id ≡ some p
    → IsQueueable p.writes
unfolding gated_plan
gated_plan-IsQueueable target parsed event session_id {p} h =
    elim (Bool-cases (reviewer_gate_passed target event)) [
      | inl y ↦
          plan_close-IsQueueable target parsed none session_id (is_ask target) {p = p} (rw y at h)
      | inr n ↦
          subst (λ p. IsQueueable p.writes)
            (some_inj
              (plan_insufficient_reviewers target session_id target.required_valid_reviewers
                event.valid_reviewers)
              p (rw n at h))
            (insufficient-IsQueueable target session_id target.required_valid_reviewers
              event.valid_reviewers)
    ]
