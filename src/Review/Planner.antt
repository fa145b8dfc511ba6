-- ===== src/Review/Planner.antt =====
-- crates/github-pr-controller/src/planner.rs: the preset of a review, and who looks at what.
pub mod Seats
use openab_control_plane.Prelude.{
  ℕ, zero, suc, ◌-◌, ◌+◌, ◌%◌, leb, Bool, ◌||◌, Option, some, none, List, [], ◌∷◌, ◌++◌,
  if◌then◌else◌, is_some, length, map, or_else, take,
}
use openab_control_plane.Text.{Text, codes, text_eq, join}

unfoldable pub preset_angles : Text → Option (List Text)
preset_angles preset =
    if text_eq preset (codes "lite")
    then some (codes "correctness" ∷ [])
    else if text_eq preset (codes "quick")
    then some (codes "correctness" ∷ codes "security" ∷ codes "integration" ∷ [])
    else if text_eq preset (codes "standard")
    then some (
        codes "correctness"
        ∷ codes "architecture"
        ∷ codes "security"
        ∷ codes "testing"
        ∷ codes "docs"
        ∷ [])
    else if text_eq preset (codes "full")
    then some (
        codes "correctness"
        ∷ codes "architecture"
        ∷ codes "security"
        ∷ codes "testing"
        ∷ codes "docs"
        ∷ codes "performance"
        ∷ codes "spec"
        ∷ [])
    else none

-- A preset that has no angles is passed over.
unfoldable pub known_preset : Option Text → Option Text
known_preset none = none
known_preset (some preset) = if is_some (preset_angles preset) then some preset else none

unfoldable pub pick_preset : Option Text → Option Text → Text
unfolding known_preset
pick_preset label_preset configured_preset =
    elim (or_else (known_preset label_preset) (known_preset configured_preset)) [
      | some preset ↦ preset
      | none ↦ codes "lite"
    ]

unfoldable pub can_command : Text → Bool
can_command association =
    text_eq association (codes "OWNER")
    || text_eq association (codes "MEMBER")
    || text_eq association (codes "COLLABORATOR")

-- `assigned[index].push(angle)`.
unfoldable pub push_at : ℕ → Text → List (List Text) → List (List Text)
push_at index angle [] = []
push_at zero angle (own ∷ assigned) = (own ++ (angle ∷ [])) ∷ assigned
push_at (suc index) angle (own ∷ assigned) = own ∷ push_at index angle assigned

-- The loop over the angles; `seats` is the number of reviewers that take part.
unfoldable pub deal : ℕ → ℕ → List Text → List (List Text) → List (List Text)
unfolding push_at
deal seats index [] assigned = assigned
deal seats index (angle ∷ angles) assigned =
    deal seats (suc index) angles (push_at (index % seats) angle assigned)

unfoldable pub assignment_lines : List Text → List (List Text) → List Text
assignment_lines [] assigned = []
assignment_lines (reviewer ∷ reviewers) [] = []
assignment_lines (reviewer ∷ reviewers) (angles ∷ assigned) =
    (codes "- " ++ (reviewer ++ (codes " → " ++ join (codes ", ") angles)))
    ∷ assignment_lines reviewers assigned

unfoldable pub participating : List Text → List Text → List Text
participating reviewers angles =
    if leb (length angles) (length reviewers) then take (length angles) reviewers else reviewers

-- The roster that takes part, the quorum and the text of the assignment.
unfoldable pub assign_angles : List Text → List Text → List Text × ℕ × Text
assign_angles [] angles = ([], 0, [])
assign_angles (chair ∷ []) angles = (chair ∷ [], 0, [])
assign_angles (chair ∷ r ∷ rs) angles =
    let taking = participating (r ∷ rs) angles in
    let assigned = deal (length taking) 0 angles (map (λ reviewer. []) taking) in
    let assignment =
      codes "Review focus assignment:\n" ++ join (codes "\n") (assignment_lines taking assigned) in
    (chair ∷ taking, length (chair ∷ taking) - 1, assignment)
