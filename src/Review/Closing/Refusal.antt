-- ===== src/Review/Closing/Refusal.antt =====
-- crates/github-pr-controller/src/closing.rs: what is written where no verdict can be trusted.
use openab_control_plane.Prelude.{
  ℤ, ◌≡◌, ◌≢◌, refl, sym, ap, ◌∙◌, inl, inr, true, false, Option, some, none, [], All, Bool-cases,
  Option-cases, is_some,
}
use openab_control_plane.Text.{Text, codes, text_eq, text_eq_iff}
use openab_control_plane.Review.Verdict.{ParsedResult}
use openab_control_plane.Review.Rows.{
  SessionTarget, Payload, comment_payload, status_payload, review_payload,
}
use openab_control_plane.Review.Closing.Integrity.{classify_integrity}
use openab_control_plane.Review.Closing.Authority.{integrity_of-parsed, integrity_of-target}
use openab_control_plane.Review.Closing.Plan.{
  ClosingPlan, plan_insufficient_reviewers, plan_sha_integrity_failure, plan_close, integrity_of,
  status_writes, canonical_target,
}

-- Comments, and error statuses on the target's canonical commit, are all that is written.
abbrev pub SaysNothing : SessionTarget → Payload → Type 0
SaysNothing target (comment_payload repo number comment_id body) = Unit
SaysNothing target (status_payload repo sha commit_id state context description) =
    (state ≡ codes "error") × (commit_id ≡ sha) × (canonical_target target ≡ some sha)
SaysNothing target (review_payload repo number event commit_id body) = ⊥

pub record FailsClosed (target : SessionTarget) (p : ClosingPlan) : Type 0 where
  pub unfound : p.findings ≡ []
  pub unfired : p.fired_waivers ≡ []
  pub says : All (λ w. SaysNothing target w.1) p.writes

error_status-SaysNothing :
    (target : SessionTarget) (sha : Option Text) (description : Text)
    → ((s : Text) → sha ≡ some s → canonical_target target ≡ some s)
    → All (λ w. SaysNothing target w.1) (status_writes target sha (codes "error") description)
error_status-SaysNothing target none description named = tt
error_status-SaysNothing target (some sha) description named = ((refl, refl, named sha refl), tt)

-- The plan for too few valid reviewers records no finding and fires no waiver, and writes comments
-- and error statuses on the target's canonical commit only.
pub plan_insufficient_reviewers-FailsClosed :
    (target : SessionTarget) (session_id : Text) (required valid : Option ℤ)
    → FailsClosed target (plan_insufficient_reviewers target session_id required valid)
unfolding plan_insufficient_reviewers
plan_insufficient_reviewers-FailsClosed target session_id required valid = record {
  unfound = refl;
  unfired = refl;
  says = (tt, error_status-SaysNothing target (canonical_target target) _ (λ s e. e));
}

sha_failure-FailsClosed :
    (target : SessionTarget) (parsed : ParsedResult) (comment_id : Option ℤ) (session_id : Text)
    → FailsClosed target (
        plan_sha_integrity_failure target parsed.trailer comment_id session_id
          (integrity_of target parsed))
unfolding plan_sha_integrity_failure
sha_failure-FailsClosed target parsed comment_id session_id = record {
  unfound = refl;
  unfired = refl;
  says = (
    tt,
    error_status-SaysNothing target (integrity_of target parsed).target_commit_id _
        (integrity_of-target target parsed),
  );
}

is_withheld :
    (target : SessionTarget) (parsed : ParsedResult)
    → is_some parsed.trailer ≡ true
    → (classify_integrity target parsed).disposition ≢ codes "verified"
    → text_eq (integrity_of target parsed).disposition (codes "verified") ≡ false
is_withheld target parsed read unproven =
    elim (Bool-cases (text_eq (integrity_of target parsed).disposition (codes "verified"))) [
      | inr n ↦ n
      | inl y ↦ elim (Option-cases parsed.trailer) [
        | inl e ↦ absurd (cc (rw e at read))
        | inr (t, e) ↦
            let same = integrity_of-parsed target parsed t e in
            absurd (
              unproven (
                ap (λ d. d.disposition) (sym same)
                ∙ (text_eq_iff (integrity_of target parsed).disposition (codes "verified")).0 y))
      ]
    ]

-- The plan of a session whose verdict is read, but whose integrity decision does not say verified,
-- is made: it records no finding and fires no waiver, and writes comments and error statuses on the
-- target's canonical commit only.
pub plan_close-FailsClosed :
    (target : SessionTarget) (parsed : ParsedResult) (comment_id : Option ℤ) (session_id : Text)
    → is_some parsed.trailer ≡ true
    → (classify_integrity target parsed).disposition ≢ codes "verified"
    → (p : ClosingPlan) × (plan_close target parsed comment_id session_id false ≡ some p)
      × FailsClosed target p
unfolding plan_close
plan_close-FailsClosed target parsed comment_id session_id read unproven =
    let withheld = is_withheld target parsed read unproven in
    (
      plan_sha_integrity_failure target parsed.trailer comment_id session_id
          (integrity_of target parsed),
      rw (read, withheld) refl,
      sha_failure-FailsClosed target parsed comment_id session_id,
    )
