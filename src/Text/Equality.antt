-- ===== src/Text/Equality.antt =====
-- The tests on texts decide equality and membership.
use openab_control_plane.Prelude.{◌≡◌, refl, ◌↔◌, true, [], ◌∷◌, Option, none, some, arith, subst}
use openab_control_plane.Text.Defs.{Text, text_eq, is_text}

text_eq→eq : (s t : Text) → text_eq s t ≡ true → s ≡ t
unfolding text_eq
text_eq→eq [] [] h = refl
text_eq→eq [] (d ∷ t) h = cc
text_eq→eq (c ∷ s) [] h = cc
text_eq→eq (c ∷ s) (d ∷ t) h = ground (arith, text_eq→eq s t)

pub text_eq_refl : (s : Text) → text_eq s s ≡ true
unfolding text_eq
text_eq_refl [] = refl
text_eq_refl (c ∷ s) = ground (arith, text_eq_refl s)

pub text_eq_iff : (s t : Text) → (text_eq s t ≡ true) ↔ (s ≡ t)
text_eq_iff s t = (text_eq→eq s t, λ e. subst (λ u. text_eq s u ≡ true) e (text_eq_refl s))

pub is_text_iff : (t : Text) (o : Option Text) → (is_text t o ≡ true) ↔ (some t ≡ o)
unfolding is_text
is_text_iff t none = ground arith
is_text_iff t (some s) = ground (arith, text_eq_iff t s)
