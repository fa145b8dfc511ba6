-- ===== src/Review/Closing/Submission.antt =====
-- crates/github-pr-controller/src/closing.rs: the submission of a proven verdict.
use openab_control_plane.Prelude.{
  ℤ, ◌≡◌, refl, ◌∙◌, ap, false, Option, some, List, [], map, ◌∷◌, arith,
}
use openab_control_plane.Text.{Text, codes, text_eq_refl}
use openab_control_plane.Review.Verdict.{VerdictTrailer, ParsedResult}
use openab_control_plane.Review.Rows.{
  SessionTarget, Write, comment_payload, status_payload, review_payload,
}
use openab_control_plane.Review.Closing.Integrity.{classify_integrity, claimed_sha}
use openab_control_plane.Review.Closing.Bodies.{
  comment_body, review_body, status_state, status_description,
}
use openab_control_plane.Review.Closing.Plan.{
  ClosingPlan, integrity_of, review_event, review_write, round_plan, plan_close, marked,
  decision_of, kind_comment, kind_status, kind_review, status_context, review_finding,
  block_findings, fired_waivers_of,
}
use openab_control_plane.Review.Closing.Authority.{Proven, integrity_of-parsed, plan_round-verified}
use openab_control_plane.Review.Closing.Commits.{classify_target-proven, verified_at}

integrity_of-Proven :
    (target : SessionTarget) (parsed : ParsedResult) (t : VerdictTrailer) (sha : Text)
    → parsed.trailer ≡ some t
    → Proven target parsed sha
    → integrity_of target parsed ≡ verified_at sha
integrity_of-Proven target parsed t sha read proven =
    integrity_of-parsed target parsed t read
    ∙ unfold classify_integrity in
      classify_target-proven target.head_sha (claimed_sha parsed.findings) sha proven

plan_close-Proven :
    (target : SessionTarget) (parsed : ParsedResult) (comment_id : Option ℤ) (session_id : Text)
    (t : VerdictTrailer) (sha : Text)
    → parsed.trailer ≡ some t
    → Proven target parsed sha
    → plan_close target parsed comment_id session_id false
      ≡ some (
          round_plan target parsed comment_id session_id
            (verified_at sha)
            (review_write target t sha (some sha) session_id ∷ []))
unfolding plan_close
plan_close-Proven target parsed comment_id session_id t sha read proven = ground (
  arith,
  read,
  integrity_of-Proven target parsed t sha read proven,
  text_eq_refl (codes "verified"),
  plan_round-verified target parsed comment_id session_id (verified_at sha) t sha read refl,
)

-- The three writes of a proven verdict, in the order in which they are queued.
abbrev pub ProvenWrites : SessionTarget → Option ℤ → VerdictTrailer → Text → List Write → Type 0
ProvenWrites target comment_id t sha writes =
    (report : Text) × (summary : Text) × (writes
      ≡ (kind_comment, comment_payload target.repo target.pr_number comment_id report)
        ∷ (
          kind_status,
          status_payload target.repo sha sha (status_state (some t)) status_context
              (status_description (some t)),
        )
        ∷ (kind_review, review_payload target.repo target.pr_number (review_event t) sha summary)
        ∷ [])

-- A verdict whose claimed commit is the target's, up to case, is always submitted: comment, status
-- and formal review are queued on that commit, and the round keeps the findings and their waivers.
pub plan_close-submits :
    (target : SessionTarget) (parsed : ParsedResult) (comment_id : Option ℤ) (session_id : Text)
    (t : VerdictTrailer) (sha : Text)
    → parsed.trailer ≡ some t
    → Proven target parsed sha
    → (p : ClosingPlan) × (plan_close target parsed comment_id session_id false ≡ some p)
      × (p.decision ≡ t.decision)
      × (p.verified_commit_id ≡ some sha)
      × (p.findings ≡ map review_finding (block_findings parsed.findings))
      × (p.fired_waivers ≡ fired_waivers_of (block_findings parsed.findings))
      × ProvenWrites target comment_id t sha p.writes
unfolding round_plan review_write
plan_close-submits target parsed comment_id session_id t sha read proven =
    let review = review_write target t sha (some sha) session_id in
    let plan = round_plan target parsed comment_id session_id (verified_at sha) (review ∷ []) in
    let report = marked (comment_body parsed parsed.trailer) session_id in
    let summary = marked (review_body t (some sha)) session_id in
    let comment : Write =
      (kind_comment, comment_payload target.repo target.pr_number comment_id report) in
    (
      plan,
      plan_close-Proven target parsed comment_id session_id t sha read proven,
      ap decision_of read,
      refl,
      refl,
      refl,
      (
        report,
        summary,
        ap
            (λ o.
              comment
              ∷ (
                kind_status,
                status_payload target.repo sha sha (status_state o) status_context
                    (status_description o),
              )
              ∷ review
              ∷ [])
            read,
      ),
    )
