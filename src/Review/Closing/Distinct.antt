-- ===== src/Review/Closing/Distinct.antt =====
-- crates/github-pr-controller: lists of writes of which no two have one kind.
use mathlib.Core.List.{map-append}
use openab_control_plane.Prelude.{
  ◌≡◌, ◌≢◌, refl, sym, inl, inr, false, List, [], ◌∷◌, ◌++◌, All, All-append, Bool-cases,
}
use openab_control_plane.Text.{Text, text_eq, text_eq_iff, contains}
use openab_control_plane.Session.Quorum.{IsDistinct}
use openab_control_plane.Review.Rows.{Write}
use openab_control_plane.Review.Closing.Outbox.{kinds}

-- No write of the one list has the kind of a write of the other.
abbrev pub NoneShared : List Write → List Write → Type 0
NoneShared ws ws' = All (λ w. All (λ w'. w.0 ≢ w'.0) ws') ws

-- Texts that are apart from each of a list are not in it.
pub not_contained : (t : Text) (ts : List Text) → All (λ u. t ≢ u) ts → contains t ts ≡ false
unfolding contains
not_contained t [] h = refl
not_contained t (u ∷ ts) h = elim (Bool-cases (text_eq u t)) [
  | inl e ↦ absurd (h.0 (sym ((text_eq_iff u t).0 e)))
  | inr e ↦ rw e (not_contained t ts h.1)
]

pub kinds_apart :
    (w : Write) (ws : List Write) → All (λ v. w.0 ≢ v.0) ws → contains w.0 (kinds ws) ≡ false
kinds_apart w ws h = not_contained w.0 (kinds ws) (each ws h)
  where
    each : (vs : List Write) → All (λ v. w.0 ≢ v.0) vs → All (λ u. w.0 ≢ u) (kinds vs)
    each [] k = tt
    each (v ∷ vs) k = (k.0, each vs k.1)

pub contains-append :
    (t : Text) (xs ys : List Text)
    → contains t xs ≡ false
    → contains t ys ≡ false
    → contains t (xs ++ ys) ≡ false
unfolding contains
contains-append t [] ys h k = k
contains-append t (x ∷ xs) ys h k = elim (Bool-cases (text_eq x t)) [
  | inl e ↦ absurd (cc (rw e at h))
  | inr e ↦ rw e (contains-append t xs ys (rw e at h) k)
]

pub distinct-append :
    (ws ws' : List Write)
    → IsDistinct (kinds ws)
    → IsDistinct (kinds ws')
    → NoneShared ws ws'
    → IsDistinct (kinds (ws ++ ws'))
distinct-append [] ws' h h' n = h'
distinct-append (w ∷ ws) ws' h h' n = (
  rw (map-append (λ (v : Write). v.0) ws ws')
      (contains-append w.0 (kinds ws) (kinds ws') h.0 (kinds_apart w ws' n.0)),
  distinct-append ws ws' h.1 h' n.1,
)

pub NoneShared-nil : (ws : List Write) → NoneShared ws []
NoneShared-nil [] = tt
NoneShared-nil (w ∷ ws) = (tt, NoneShared-nil ws)

pub NoneShared-append :
    (ws xs ys : List Write) → NoneShared ws xs → NoneShared ws ys → NoneShared ws (xs ++ ys)
NoneShared-append [] xs ys h k = tt
NoneShared-append (w ∷ ws) xs ys h k =
    (All-append (λ v. w.0 ≢ v.0) xs ys h.0 k.0, NoneShared-append ws xs ys h.1 k.1)
