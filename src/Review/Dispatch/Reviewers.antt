-- ===== src/Review/Dispatch/Reviewers.antt =====
-- crates/github-pr-controller/src/lib.rs: a round is closed with its verdict only on reviewer evidence.
use openab_control_plane.Prelude.{
  ℤ, pos, negsuc, leb_ℤ, is_positive, ◌≡◌, refl, sym, ap, ◌∙◌, ◌⊎◌, inl, inr, true, false, ◌&&◌,
  Option, some, none, arith, Bool-cases, Option-cases, ==_iff,
}
use openab_control_plane.Text.{Text, codes, text_eq, text_eq_iff, text_eq_refl}
use openab_control_plane.Store.Actions.{eq_ℤ}
use openab_control_plane.Review.Verdict.{FindingsBlock, ParsedResult, parse_final_messages}
use openab_control_plane.Review.Rows.{SessionTarget}
use openab_control_plane.Review.Closing.{ClosingPlan, plan_close, plan_insufficient_reviewers}
use openab_control_plane.Review.Closing.Authority.{plan_close-Authorised}
use openab_control_plane.Review.Closing.Refusal.{
  FailsClosed, plan_insufficient_reviewers-FailsClosed,
}
use openab_control_plane.Review.Dispatch.{
  RuntimeEventEnvelope, same_count, is_ask, reviewer_gate_passed, gated_plan, terminal_plan,
}

-- The event ends the round normally, and reports the positive number of reviewers that the target
-- requires and at least as many valid ones.
abbrev pub HasReviewers : SessionTarget → RuntimeEventEnvelope → Type 0
HasReviewers target event =
    (required valid : ℤ) × (event.reason ≡ codes "normal")
    × (target.required_valid_reviewers ≡ some required)
    × (event.required_valid_reviewers ≡ some required)
    × (event.valid_reviewers ≡ some valid)
    × (is_positive required ≡ true)
    × (leb_ℤ required valid ≡ true)

eq_ℤ→≡ : (a b : ℤ) → eq_ℤ a b ≡ true → a ≡ b
unfolding eq_ℤ
eq_ℤ→≡ (pos a) (pos b) h = ap pos ((==_iff a b).0 h)
eq_ℤ→≡ (negsuc a) (negsuc b) h = ap negsuc ((==_iff a b).0 h)
eq_ℤ→≡ (pos a) (negsuc b) h = absurd (cc h)
eq_ℤ→≡ (negsuc a) (pos b) h = absurd (cc h)

eq_ℤ_refl : (a : ℤ) → eq_ℤ a a ≡ true
unfolding eq_ℤ
eq_ℤ_refl (pos a) = (==_iff a a).1 refl
eq_ℤ_refl (negsuc a) = (==_iff a a).1 refl

gate_holds :
    (target : SessionTarget) (event : RuntimeEventEnvelope)
    → is_ask target ≡ false
    → HasReviewers target event
    → reviewer_gate_passed target event ≡ true
unfolding reviewer_gate_passed same_count
gate_holds target event asked
      (required, valid, normal, wanted, reported, counted, positive, enough) =
    rw
      (
        asked,
        normal,
        wanted,
        reported,
        counted,
        positive,
        enough,
        eq_ℤ_refl required,
        text_eq_refl (codes "normal"),
      )
      refl

gate-HasReviewers :
    (target : SessionTarget) (event : RuntimeEventEnvelope)
    → is_ask target ≡ false
    → reviewer_gate_passed target event ≡ true
    → HasReviewers target event
unfolding reviewer_gate_passed same_count
gate-HasReviewers target event asked h = elim (Option-cases target.required_valid_reviewers) [
  | inl n ↦ absurd (ground (arith, asked, n, h))
  | inr (required, wanted) ↦ elim (Option-cases event.valid_reviewers) [
    | inl n ↦ absurd (ground (arith, asked, n, wanted, h))
    | inr (valid, counted) ↦ elim (Option-cases event.required_valid_reviewers) [
      | inl n ↦ absurd (ground (arith, asked, n, wanted, h))
      | inr (reported, told) ↦
          let tests : (text_eq event.reason (codes "normal")
                && is_positive required
                && eq_ℤ reported required
                && leb_ℤ required valid)
              ≡ true =
            rw (asked, wanted, counted, told) at h in
          let normal : text_eq event.reason (codes "normal") ≡ true = ground (arith, tests) in
          let positive : is_positive required ≡ true = ground (arith, tests) in
          let same : eq_ℤ reported required ≡ true = ground (arith, tests) in
          let enough : leb_ℤ required valid ≡ true = ground (arith, tests) in
          (
            required,
            valid,
            (text_eq_iff event.reason (codes "normal")).0 normal,
            wanted,
            told ∙ ap some (eq_ℤ→≡ reported required same),
            counted,
            positive,
            enough,
          )
    ]
  ]
]

-- What is planned for a round: its verdict, on the evidence, or else a refusal.
abbrev pub IsGated :
    SessionTarget → ParsedResult → RuntimeEventEnvelope → Text → ClosingPlan → Type 0
IsGated target parsed event session_id p =
    (HasReviewers target event × (plan_close target parsed none session_id false ≡ some p))
    ⊎ ((¬ HasReviewers target event) × FailsClosed target p)

pub gated_plan-IsGated :
    (target : SessionTarget) (parsed : ParsedResult) (event : RuntimeEventEnvelope)
    (session_id : Text)
    → is_ask target ≡ false
    → (p : ClosingPlan) × (gated_plan target parsed event session_id ≡ some p)
      × IsGated target parsed event session_id p
unfolding gated_plan
gated_plan-IsGated target parsed event session_id asked =
    elim (Bool-cases (reviewer_gate_passed target event)) [
      | inl y ↦
          let made = plan_close-Authorised target parsed none session_id false in
          (made.0, rw (y, asked) made.1, inl (gate-HasReviewers target event asked y, made.1))
      | inr n ↦ (
        plan_insufficient_reviewers target session_id target.required_valid_reviewers
            event.valid_reviewers,
        rw n refl,
        inr (
          λ (has : HasReviewers target event).
              absurd (cc (sym n ∙ gate_holds target event asked has)),
          plan_insufficient_reviewers-FailsClosed target session_id target.required_valid_reviewers
              event.valid_reviewers,
        ),
      )
    ]

-- The terminal event of a review session that ends normally or for too few reviewers always gives a
-- plan. The plan is the one that plan_close makes of the final messages, exactly where the event ends the
-- session normally and reports the positive number of reviewers that the target requires, and at least
-- as many valid ones; else it records no finding, fires no waiver, and writes only comments and error
-- statuses on the target's canonical commit.
pub terminal_plan-IsGated :
    (from_str : Text → Option FindingsBlock) (session_target : Text → Option SessionTarget)
    (event : RuntimeEventEnvelope) (session_id : Text) (target : SessionTarget)
    → event.event_type ≡ codes "session.terminal"
    → event.session_id ≡ some session_id
    → session_target session_id ≡ some target
    → is_ask target ≡ false
    → (event.reason ≡ codes "normal") ⊎ (event.reason ≡ codes "insufficient_valid_reviewers")
    → (p : ClosingPlan) × (terminal_plan from_str session_target event ≡ some (some p))
      × IsGated target (parse_final_messages from_str event.final_messages) event session_id p
unfolding terminal_plan
terminal_plan-IsGated from_str session_target event session_id target terminal named found asked
      reason =
    let parsed = parse_final_messages from_str event.final_messages in
    let made = gated_plan-IsGated target parsed event session_id asked in
    let is_terminal = (text_eq_iff event.event_type (codes "session.terminal")).1 terminal in
    let gated : terminal_plan from_str session_target event
        ≡ some (gated_plan target parsed event session_id) =
      elim reason [
        | inl e ↦
            let normal = (text_eq_iff event.reason (codes "normal")).1 e in
            simp (is_terminal, normal, named, found, asked)
        | inr e ↦
            let few = (text_eq_iff event.reason (codes "insufficient_valid_reviewers")).1 e in
            elim (Bool-cases (text_eq event.reason (codes "normal"))) [
              | inl normal ↦ simp (is_terminal, normal, named, found, asked)
              | inr other ↦ simp (is_terminal, few, other, named, found, asked)
            ]
      ] in
    (made.0, gated ∙ ap some made.1, made.2)
