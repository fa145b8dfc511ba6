-- ===== src/Review/Planner/Seats.antt =====
-- crates/github-pr-controller/src/planner.rs: how many reviewers a plan seats.
use openab_control_plane.Prelude.{
  suc, ◌-◌, ◌≡◌, refl, sym, ap, ◌∙◌, leb, min, inl, inr, List, [], ◌∷◌, arith, length, take,
  length-take, Bool-cases,
}
use openab_control_plane.Text.{Text}
use openab_control_plane.Review.Planner.{participating, assign_angles}

take-length : (xs : List Text) → take (length xs) xs ≡ xs
take-length [] = refl
take-length (x ∷ xs) = ap (λ ys. x ∷ ys) (take-length xs)

participating-take :
    (reviewers angles : List Text)
    → (length (participating reviewers angles) ≡ min (length angles) (length reviewers))
      × (participating reviewers angles ≡ take (length (participating reviewers angles)) reviewers)
unfolding participating
participating-take reviewers angles = elim (Bool-cases (leb (length angles) (length reviewers))) [
  | inl y ↦
      let counted : length (take (length angles) reviewers) ≡ length angles =
        ground (arith, y, length-take (length angles) reviewers) in
      rw (y, counted) (ground (arith, y), refl)
  | inr n ↦ rw n (ground (arith, n), sym (take-length reviewers))
]

-- A plan seats the chair and the first reviewers of the roster, as many as there are angles or
-- reviewers, whichever are fewer, and its quorum is their number.
pub assign_angles-take :
    (roster angles : List Text)
    → let plan = assign_angles roster angles in
      (plan.0 ≡ take (suc plan.1) roster) × (plan.1 ≡ min (length angles) (length roster - 1))
unfolding assign_angles
assign_angles-take [] angles = (refl, omega arith)
assign_angles-take (chair ∷ []) angles = (refl, omega arith)
assign_angles-take (chair ∷ r ∷ rs) angles =
    let (counted, taken) = participating-take (r ∷ rs) angles in
    let seated = length (participating (r ∷ rs) angles) in
    let less : suc seated - 1 ≡ seated = omega arith in
    (
      ap (λ bots. chair ∷ bots) (taken ∙ ap (λ n. take n (r ∷ rs)) (sym less)),
      omega (arith, counted),
    )
