-- ===== src/Review/Closing/Authority.antt =====
-- crates/github-pr-controller/src/closing.rs: which writes a closed session is allowed.
use openab_control_plane.Prelude.{
  ℤ, ◌≡◌, refl, sym, ◌∙◌, ap, subst, inl, inr, Bool, true, false, Option, some, none, List, [], ◌∷◌,
  arith, ◌>>=◌, some_inj, All, All-append, is_some, Bool-cases, Option-cases,
}
use openab_control_plane.Text.{Text, codes, text_eq, text_eq_iff}
use openab_control_plane.Review.Verdict.{VerdictTrailer, ParsedResult}
use openab_control_plane.Review.Rows.{
  SessionTarget, Payload, Write, comment_payload, status_payload, review_payload,
}
use openab_control_plane.Review.Closing.Integrity.{
  IntegrityDecision, classify_integrity, claimed_sha,
}
use openab_control_plane.Review.Closing.Bodies.{blocks, status_state}
use openab_control_plane.Review.Closing.Plan.{
  ClosingPlan, plan_ask, plan_sha_integrity_failure, integrity_of, review_event, review_write,
  review_writes, round_plan, plan_round, plan_close, status_writes, canonical_target,
}
use openab_control_plane.Review.Closing.Commits.{
  IsProven, IsVerified, classify_integrity-IsVerified, classify_target-target,
}

abbrev pub Proven : SessionTarget → ParsedResult → Text → Type 0
Proven target parsed sha = IsProven target.head_sha (claimed_sha parsed.findings) sha

-- What a write may say. A review is the verdict's own, on the proven commit; a status names the
-- target's canonical commit, and succeeds only for a proven verdict that does not block.
abbrev pub Authorised : SessionTarget → ParsedResult → Bool → Payload → Type 0
Authorised target parsed is_ask (comment_payload repo number comment_id body) = Unit
Authorised target parsed is_ask (status_payload repo sha commit_id state context description) =
    (is_ask ≡ false)
    × (commit_id ≡ sha)
    × (canonical_target target ≡ some sha)
    × (state ≡ codes "success"
        → (t : VerdictTrailer) × (parsed.trailer ≡ some t)
          × (blocks t ≡ false)
          × Proven target parsed sha)
Authorised target parsed is_ask (review_payload repo number event commit_id body) =
    (is_ask ≡ false)
    × ((t : VerdictTrailer) × (parsed.trailer ≡ some t)
        × (event ≡ review_event t)
        × Proven target parsed commit_id)

abbrev pub AllAuthorised : SessionTarget → ParsedResult → Bool → List Write → Type 0
AllAuthorised target parsed is_ask = All (λ w. Authorised target parsed is_ask w.1)

status_writes-Authorised :
    (target : SessionTarget) (parsed : ParsedResult) (sha : Option Text) (state description : Text)
    → ((s : Text) → sha ≡ some s → canonical_target target ≡ some s)
    → ((s : Text)
        → sha ≡ some s
        → state ≡ codes "success"
        → (t : VerdictTrailer) × (parsed.trailer ≡ some t)
          × (blocks t ≡ false)
          × Proven target parsed s)
    → AllAuthorised target parsed false (status_writes target sha state description)
status_writes-Authorised target parsed none state description named proven = tt
status_writes-Authorised target parsed (some sha) state description named proven =
    ((refl, refl, named sha refl, proven sha refl), tt)

plan_ask-Authorised :
    (target : SessionTarget) (parsed : ParsedResult) (comment_id : Option ℤ) (session_id : Text)
    → AllAuthorised target parsed true (plan_ask target parsed comment_id session_id).writes
unfolding plan_ask
plan_ask-Authorised target parsed comment_id session_id = (tt, tt)

plan_sha_integrity_failure-Authorised :
    (target : SessionTarget) (parsed : ParsedResult) (comment_id : Option ℤ) (session_id : Text)
    (d : IntegrityDecision)
    → ((sha : Text) → d.target_commit_id ≡ some sha → canonical_target target ≡ some sha)
    → AllAuthorised target parsed false
        (plan_sha_integrity_failure target parsed.trailer comment_id session_id d).writes
unfolding plan_sha_integrity_failure
plan_sha_integrity_failure-Authorised target parsed comment_id session_id d named =
    (tt, status_writes-Authorised target parsed d.target_commit_id _ _ named (λ s _ e. absurd (cc)))

-- A status of `status_state` succeeds for a verdict that does not block.
status_state-success :
    (o : Option VerdictTrailer)
    → status_state o ≡ codes "success"
    → (t : VerdictTrailer) × (o ≡ some t) × (blocks t ≡ false)
unfolding status_state
status_state-success none h = cc
status_state-success (some t) h = (t, refl, ground arith)

round_plan-Authorised :
    (target : SessionTarget) (parsed : ParsedResult) (comment_id : Option ℤ) (session_id : Text)
    (d : IntegrityDecision) (reviews : List Write)
    → ((sha : Text) → d.target_commit_id ≡ some sha → canonical_target target ≡ some sha)
    → (is_some parsed.trailer ≡ true
        → (sha : Text) → d.target_commit_id ≡ some sha
        → Proven target parsed sha)
    → AllAuthorised target parsed false reviews
    → AllAuthorised target parsed false
        (round_plan target parsed comment_id session_id d reviews).writes
unfolding round_plan
round_plan-Authorised target parsed comment_id session_id d reviews named proven authorised = (
  tt,
  All-append _ (status_writes target d.target_commit_id _ _) reviews
      (status_writes-Authorised target parsed d.target_commit_id _ _ named λ s of_status success.
        let (t, e, free) = status_state-success parsed.trailer success in
        (t, e, free, proven (rw e refl) s of_status))
      authorised,
)

plan_round-unparsed :
    (target : SessionTarget) (parsed : ParsedResult) (comment_id : Option ℤ) (session_id : Text)
    (d : IntegrityDecision)
    → parsed.trailer ≡ none
    → plan_round target parsed comment_id session_id d
      ≡ some (round_plan target parsed comment_id session_id d [])
unfolding plan_round
plan_round-unparsed target parsed comment_id session_id d e =
    ap (λ r. r >>= λ reviews. some (round_plan target parsed comment_id session_id d reviews))
      (subst (λ o. review_writes target o d session_id ≡ some []) (sym e)
        (unfold review_writes in refl))

pub plan_round-verified :
    (target : SessionTarget) (parsed : ParsedResult) (comment_id : Option ℤ) (session_id : Text)
    (d : IntegrityDecision) (t : VerdictTrailer) (sha : Text)
    → parsed.trailer ≡ some t
    → d.verified_commit_id ≡ some sha
    → plan_round target parsed comment_id session_id d
      ≡ some (
          round_plan target parsed comment_id session_id d
            (review_write target t sha d.reviewed_sha session_id ∷ []))
unfolding plan_round
plan_round-verified target parsed comment_id session_id d t sha e v =
    ap (λ r. r >>= λ reviews. some (round_plan target parsed comment_id session_id d reviews))
      (subst
        (λ o.
          review_writes target o d session_id
          ≡ some (review_write target t sha d.reviewed_sha session_id ∷ []))
        (sym e) (unfold review_writes in ground (arith, v)))

pub integrity_of-parsed :
    (target : SessionTarget) (parsed : ParsedResult) (t : VerdictTrailer)
    → parsed.trailer ≡ some t
    → integrity_of target parsed ≡ classify_integrity target parsed
unfolding integrity_of
integrity_of-parsed target parsed t e = ground (arith, e)

-- The commit that an integrity decision lets a status name is the target's own.
pub integrity_of-target :
    (target : SessionTarget) (parsed : ParsedResult) (sha : Text)
    → (integrity_of target parsed).target_commit_id ≡ some sha
    → canonical_target target ≡ some sha
unfolding integrity_of classify_integrity
integrity_of-target target parsed sha h =
    ground (arith, classify_target-target target.head_sha (claimed_sha parsed.findings) sha)

pub integrity_of-IsVerified :
    (target : SessionTarget) (parsed : ParsedResult) (t : VerdictTrailer)
    → parsed.trailer ≡ some t
    → (integrity_of target parsed).disposition ≡ codes "verified"
    → IsVerified target.head_sha (claimed_sha parsed.findings) (integrity_of target parsed)
integrity_of-IsVerified target parsed t read h =
    let same = integrity_of-parsed target parsed t read in
    subst (IsVerified target.head_sha (claimed_sha parsed.findings)) (sym same)
      (classify_integrity-IsVerified target parsed (ap (λ d. d.disposition) (sym same) ∙ h))

-- A plan is always made. A status that it writes names the target's canonical commit, and says
-- success only for a verdict that does not block and whose claimed commit is the target's; a review is
-- the verdict's own event, on the commit that the target and the claim both name. The plan of an ask
-- writes neither.
pub plan_close-Authorised :
    (target : SessionTarget) (parsed : ParsedResult) (comment_id : Option ℤ) (session_id : Text)
    (is_ask : Bool)
    → (p : ClosingPlan) × (plan_close target parsed comment_id session_id is_ask ≡ some p)
      × AllAuthorised target parsed is_ask p.writes
unfolding plan_close
plan_close-Authorised target parsed comment_id session_id true =
    (_, refl, plan_ask-Authorised target parsed comment_id session_id)
plan_close-Authorised target parsed comment_id session_id false =
    let d = integrity_of target parsed in
    let named = integrity_of-target target parsed in
    elim (Option-cases parsed.trailer) [
      | inl none_read ↦ (
        round_plan target parsed comment_id session_id d [],
        ground (arith, none_read, plan_round-unparsed target parsed comment_id session_id d),
        round_plan-Authorised target parsed comment_id session_id d [] named
            (λ parsed_some. absurd (ground (arith, none_read))) tt,
      )
      | inr (t, read) ↦ elim (Bool-cases (text_eq d.disposition (codes "verified"))) [
        | inl verified ↦
            let v =
              integrity_of-IsVerified target parsed t read
                ((text_eq_iff d.disposition _).0 verified) in
            (
              round_plan target parsed comment_id session_id d
                  (review_write target t v.commit d.reviewed_sha session_id ∷ []),
              ground (
                arith,
                read,
                verified,
                plan_round-verified target parsed comment_id session_id d t v.commit read
                    v.verified,
              ),
              round_plan-Authorised target parsed comment_id session_id d _ named
                  (λ _ s h.
                    subst (Proven target parsed) (some_inj v.commit s (sym v.of_status ∙ h))
                      v.proven)
                  (unfold review_write in ((refl, (t, read, refl, v.proven)), tt)),
            )
        | inr not_verified ↦ (
          plan_sha_integrity_failure target parsed.trailer comment_id session_id d,
          ground (arith, read, not_verified),
          plan_sha_integrity_failure-Authorised target parsed comment_id session_id d named,
        )
      ]
    ]
