-- ===== src/Coordinator/Quorum/Completion.antt =====
-- src/coordinator.rs: the evidence that a controller is given is what the quorum was decided on.
use openab_control_plane.Prelude.{
  ◌≡◌, ap, Bool, true, not, List, pos, leb_ℤ, filterb, arith, ◌∷◌, [],
}
use openab_control_plane.Text.{Text, contains, is_text}
use openab_control_plane.Session.{reviewers, quorum_reached}
use openab_control_plane.Session.Quorum.{IsDistinct, common_comm}
use openab_control_plane.Coordinator.Defs.{Ctx}
use openab_control_plane.Coordinator.Quorum.{counted_done_voters, delivered, reviewer_completion}

-- Filtering names leaves them different.
contains-filterb :
    (p : Text → Bool) (x : Text) (xs : List Text)
    → contains x (filterb p xs) ≡ true
    → contains x xs ≡ true
unfolding contains
contains-filterb p x [] h = h
contains-filterb p x (y ∷ xs) h = ground (arith, contains-filterb p x xs)

filterb-IsDistinct : (p : Text → Bool) (xs : List Text) → IsDistinct xs → IsDistinct (filterb p xs)
filterb-IsDistinct p [] d = tt
filterb-IsDistinct p (x ∷ xs) d =
    ground (arith, filterb-IsDistinct p xs d.1, contains-filterb p x xs)

counted-IsDistinct :
    (cx : Ctx) (explicit : Bool)
    → IsDistinct cx.done_voters
    → IsDistinct (counted_done_voters cx explicit)
unfolding counted_done_voters
counted-IsDistinct cx explicit d =
    ground (arith, filterb-IsDistinct (delivered cx) cx.done_voters d)

reviewers-IsDistinct : (cx : Ctx) → IsDistinct cx.roster → IsDistinct (reviewers cx.roster cx.chair)
unfolding reviewers
reviewers-IsDistinct cx d = filterb-IsDistinct (λ bot. not (is_text bot cx.chair)) cx.roster d

-- Where neither the roster nor the votes name a bot twice, the quorum is reached exactly when the
-- valid reviewers reported to the controller are at least the required ones.
pub reviewer_completion-quorum_reached :
    (cx : Ctx) (explicit : Bool)
    → IsDistinct cx.roster
    → IsDistinct cx.done_voters
    → let completion = reviewer_completion cx explicit in
      leb_ℤ completion.required_valid_reviewers completion.valid_reviewers
      ≡ quorum_reached cx.roster cx.chair (counted_done_voters cx explicit) cx.quorum_n
unfolding reviewer_completion quorum_reached
reviewer_completion-quorum_reached cx explicit roster votes =
    let done = counted_done_voters cx explicit in
    let revs = reviewers cx.roster cx.chair in
    ap (λ n. leb_ℤ cx.quorum_n (pos n))
      (common_comm done revs (counted-IsDistinct cx explicit votes)
        (reviewers-IsDistinct cx roster))
