-- ===== src/Session/Quorum.antt =====
-- src/session.rs: which votes a quorum counts.
use openab_control_plane.Prelude.{
  ℕ, suc, ◌≤◌, ℤ, ◌≡◌, refl, sym, true, false, not, List, [], ◌∷◌, Option, arith, filterb, length,
  leb_ℤ-mono,
}
use openab_control_plane.Text.{Text, text_eq_iff, contains, is_text}
use openab_control_plane.Session.{quorum_reached}

-- Every vote of `done` that is not the chair's own is also in `done'`.
abbrev pub VotesWithin : Option Text → List Text → List Text → Type 0
VotesWithin chair done done' =
    (bot : Text) → is_text bot chair ≡ false → contains bot done ≡ true → contains bot done' ≡ true

abbrev voted : List Text → Option Text → List Text → ℕ
voted roster chair done =
    length (filterb (λ r. contains r done) (filterb (λ bot. not (is_text bot chair)) roster))

voted_mono :
    (roster : List Text) (chair : Option Text) (done done' : List Text)
    → VotesWithin chair done done'
    → voted roster chair done ≤ voted roster chair done'
voted_mono [] chair done done' h = omega arith
voted_mono (bot ∷ roster) chair done done' h =
    ground (arith, h bot, voted_mono roster chair done done' h)

-- A quorum that is reached stays reached with any votes that keep those of everyone but the chair,
-- whatever the chair votes, and however often or in whatever order the votes are listed.
pub quorum_reached_mono :
    (roster : List Text) (chair : Option Text) (done done' : List Text) (quorum_n : ℤ)
    → VotesWithin chair done done'
    → quorum_reached roster chair done quorum_n ≡ true
    → quorum_reached roster chair done' quorum_n ≡ true
unfolding quorum_reached
quorum_reached_mono roster chair done done' quorum_n h =
    leb_ℤ-mono quorum_n _ _ (voted_mono roster chair done done' h)

abbrev pub IsDistinct : List Text → Type 0
IsDistinct [] = Unit
IsDistinct (x ∷ xs) = (contains x xs ≡ false) × IsDistinct xs

abbrev pub common : List Text → List Text → ℕ
common xs ys = length (filterb (λ x. contains x ys) xs)

-- A name that is not among `ys` adds nothing to what `ys` finds.
common-absent :
    (x : Text) (xs ys : List Text) → contains x ys ≡ false → common ys (x ∷ xs) ≡ common ys xs
unfolding contains
common-absent x xs [] h = refl
common-absent x xs (y ∷ ys) h =
    ground (arith, text_eq_iff x y, text_eq_iff y x, common-absent x xs ys)

common-present :
    (x : Text) (xs ys : List Text)
    → contains x xs ≡ false
    → IsDistinct ys
    → contains x ys ≡ true
    → common ys (x ∷ xs) ≡ suc (common ys xs)
unfolding contains
common-present x xs [] h d p = cc
common-present x xs (y ∷ ys) h d p =
    ground
      (arith, text_eq_iff x y, text_eq_iff y x, common-absent x xs ys, common-present x xs ys h d.1)

common-nil : (ys : List Text) → common ys [] ≡ 0
unfolding contains
common-nil [] = refl
common-nil (y ∷ ys) = common-nil ys

-- Counted from either side, two lists of different names have as many in common.
pub common_comm : (xs ys : List Text) → IsDistinct xs → IsDistinct ys → common xs ys ≡ common ys xs
common_comm [] ys d e = sym (common-nil ys)
common_comm (x ∷ xs) ys d e =
    ground (arith, common-absent x xs ys, common-present x xs ys d.0 e, common_comm xs ys d.1 e)
