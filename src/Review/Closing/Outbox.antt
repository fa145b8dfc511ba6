-- ===== src/Review/Closing/Outbox.antt =====
-- crates/github-pr-controller/src/closing.rs: the outbox takes one row for each kind of a session.
use openab_control_plane.Prelude.{
  ℤ, ◌≡◌, refl, Bool, true, false, not, ◌&&◌, Option, some, none, inl, inr, List, [], ◌∷◌, ◌++◌,
  arith, map, Bool-cases, Option-cases, is_some, some_inj, subst, >>=-eq-some,
}
use openab_control_plane.Text.{Text, codes, text_eq, text_ops, contains}
use openab_control_plane.Session.Quorum.{IsDistinct}
use openab_control_plane.Review.Verdict.{VerdictTrailer, ParsedResult}
use openab_control_plane.Review.Rows.{SessionTarget, Payload, Write}
use openab_control_plane.Review.Closing.Integrity.{IntegrityDecision}
use openab_control_plane.Review.Closing.Plan.{
  ClosingPlan, plan_ask, plan_sha_integrity_failure, review_writes, review_write, round_plan,
  plan_round, plan_close, kind_comment, kind_review, status_writes, integrity_of, round_comment,
  failure_comment,
}

abbrev pub kinds : List Write → List Text
kinds = map λ w. w.0

-- The comment comes first, and no kind comes twice.
abbrev pub IsQueueable : List Write → Type 0
IsQueueable [] = ⊥
IsQueueable (w ∷ ws) = (w.0 ≡ kind_comment) × IsDistinct (kinds (w ∷ ws))

-- What may stand behind the comment and the status: nothing, or one review.
abbrev pub AtMostOneReview : List Write → Type 0
AtMostOneReview [] = Unit
AtMostOneReview (w ∷ []) = w.0 ≡ kind_review
AtMostOneReview (w ∷ v ∷ ws) = ⊥

comment_and_status :
    (target : SessionTarget) (comment : Payload) (sha : Option Text) (state description : Text)
    → IsQueueable ((kind_comment, comment) ∷ status_writes target sha state description)
unfolding contains text_ops
comment_and_status target comment none state description = (refl, (refl, tt))
comment_and_status target comment (some sha) state description = (refl, (refl, (refl, tt)))

with_reviews :
    (target : SessionTarget) (comment : Payload) (sha : Option Text) (state description : Text)
    (reviews : List Write)
    → AtMostOneReview reviews
    → IsQueueable
        ((kind_comment, comment) ∷ (status_writes target sha state description ++ reviews))
unfolding contains text_ops
with_reviews target comment none state description [] r = (refl, (refl, tt))
with_reviews target comment none state description ((kind, w) ∷ []) r =
    rw r (refl, (refl, (refl, tt)))
with_reviews target comment (some sha) state description [] r = (refl, (refl, (refl, tt)))
with_reviews target comment (some sha) state description ((kind, w) ∷ []) r =
    rw r (refl, (refl, (refl, (refl, tt))))
with_reviews target comment sha state description (w ∷ v ∷ ws) r = absurd r

pub review_writes-AtMostOneReview :
    (target : SessionTarget) (o : Option VerdictTrailer) (d : IntegrityDecision) (session_id : Text)
    {reviews : List Write}
    → review_writes target o d session_id ≡ some reviews
    → AtMostOneReview reviews
unfolding review_writes review_write
review_writes-AtMostOneReview target none d session_id h =
    subst AtMostOneReview (some_inj [] _ h) tt
review_writes-AtMostOneReview target (some t) d session_id h =
    elim (Option-cases d.verified_commit_id) [
      | inl e ↦ absurd (ground (arith, e))
      | inr (sha, e) ↦
          subst AtMostOneReview
            (some_inj (review_write target t sha d.reviewed_sha session_id ∷ []) _
              (ground (arith, e)))
            refl
    ]

plan_round-IsQueueable :
    (target : SessionTarget) (parsed : ParsedResult) (comment_id : Option ℤ) (session_id : Text)
    (d : IntegrityDecision) {p : ClosingPlan}
    → plan_round target parsed comment_id session_id d ≡ some p
    → IsQueueable p.writes
unfolding plan_round round_plan
plan_round-IsQueueable target parsed comment_id session_id d h =
    let (reviews, e, made) = >>=-eq-some (review_writes target parsed.trailer d session_id) _ h in
    subst (λ p. IsQueueable p.writes)
      (some_inj (round_plan target parsed comment_id session_id d reviews) _ made)
      (with_reviews target (round_comment target parsed comment_id session_id) d.target_commit_id _
        _ reviews (review_writes-AtMostOneReview target parsed.trailer d session_id e))

-- The writes of a plan that is made start with a comment, and no two of them have one kind.
pub plan_close-IsQueueable :
    (target : SessionTarget) (parsed : ParsedResult) (comment_id : Option ℤ) (session_id : Text)
    (is_ask : Bool) {p : ClosingPlan}
    → plan_close target parsed comment_id session_id is_ask ≡ some p
    → IsQueueable p.writes
unfolding plan_close
plan_close-IsQueueable target parsed comment_id session_id true h =
    subst (λ p. IsQueueable p.writes) (some_inj (plan_ask target parsed comment_id session_id) _ h)
      (unfold plan_ask contains in (refl, (refl, tt)))
plan_close-IsQueueable target parsed comment_id session_id false {p} h =
    let d = integrity_of target parsed in
    let withhold = is_some parsed.trailer && not (text_eq d.disposition (codes "verified")) in
    elim (Bool-cases withhold) [
      | inl failed ↦
          subst (λ p. IsQueueable p.writes)
            (some_inj (plan_sha_integrity_failure target parsed.trailer comment_id session_id d) p
              (ground (arith, failed)))
            (unfold plan_sha_integrity_failure in
              comment_and_status target
                (failure_comment target parsed.trailer comment_id session_id d) d.target_commit_id _
                _)
      | inr round ↦
          plan_round-IsQueueable target parsed comment_id session_id d {p = p}
            (ground (arith, round))
    ]
