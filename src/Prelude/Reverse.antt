-- ===== src/Prelude/Reverse.antt =====
-- Lists read from their end.
use mathlib.Core.Path.{◌≡◌, refl, ap, ◌∙◌, subst}
use mathlib.Core.Bool.{Bool, true}
use mathlib.Core.List.{List, [], ◌∷◌, ◌++◌, reverse, reverse-cons, append-nil}
use mathlib.Core.Option.{none, some}
use mathlib.Core.Logic.{inl, inr}
use openab_control_plane.Prelude.Tests.{Bool-cases, Option-cases, some_inj}
use openab_control_plane.Prelude.Lists.{
  All, All-append, filterb, rfindb, first?, last?, last?-append,
}

module _ {A : Type 0} where
  pub All-reverse : (P : A → Type 0) (xs : List A) → All P xs → All P (reverse xs)
  All-reverse P [] h = tt
  All-reverse P (x ∷ xs) h =
      rw (reverse-cons x xs) (All-append P (reverse xs) (x ∷ []) (All-reverse P xs h.1) (h.0, tt))

  pub last?-reverse : (xs : List A) → last? (reverse xs) ≡ first? xs
  last?-reverse [] = refl
  last?-reverse (x ∷ xs) = rw (reverse-cons x xs) (last?-append (reverse xs) (x ∷ []) {y = x} refl)

  pub filterb-append :
      (p : A → Bool) (xs ys : List A) → filterb p (xs ++ ys) ≡ filterb p xs ++ filterb p ys
  filterb-append p [] ys = refl
  filterb-append p (x ∷ xs) ys = elim (Bool-cases (p x)) [
    | inl e ↦ rw e (ap (λ zs. x ∷ zs) (filterb-append p xs ys))
    | inr e ↦ rw e (filterb-append p xs ys)
  ]

  pub filterb-reverse :
      (p : A → Bool) (xs : List A) → filterb p (reverse xs) ≡ reverse (filterb p xs)
  filterb-reverse p [] = refl
  filterb-reverse p (x ∷ xs) =
      ap (filterb p) (reverse-cons x xs)
      ∙ filterb-append p (reverse xs) (x ∷ [])
      ∙ elim (Bool-cases (p x)) [
        | inl e ↦ rw (e, reverse-cons x (filterb p xs), filterb-reverse p xs) refl
        | inr e ↦ rw (e, filterb-reverse p xs) (append-nil (reverse (filterb p xs)))
      ]

  pub rfindb-append :
      (p : A → Bool) (xs ys : List A)
      → rfindb p (xs ++ ys) ≡ elim (rfindb p ys) [ some y ↦ some y | none ↦ rfindb p xs ]
  rfindb-append p [] ys = elim (Option-cases (rfindb p ys)) [
    | inl e ↦ rw e refl
    | inr (y, e) ↦ rw e refl
  ]
  rfindb-append p (x ∷ xs) ys = elim (Option-cases (rfindb p ys)) [
    | inl e ↦ rw (rfindb-append p xs ys, e) refl
    | inr (y, e) ↦ rw (rfindb-append p xs ys, e) refl
  ]

  -- The row that a search from the end finds satisfies the test, and each property of the rows.
  pub rfindb_holds :
      (P : A → Type 0) (p : A → Bool) (xs : List A) {y : A}
      → All P xs
      → rfindb p xs ≡ some y
      → P y × (p y ≡ true)
  rfindb_holds P p [] h e = absurd (cc e)
  rfindb_holds P p (x ∷ xs) {y} h e = elim (Option-cases (rfindb p xs)) [
    | inr (z, f) ↦ rfindb_holds P p xs {y = y} h.1 (f ∙ (rw f at e))
    | inl n ↦ elim (Bool-cases (p x)) [
      | inr q ↦ absurd (cc (rw (n, q) at e))
      | inl q ↦
          let here : x ≡ y = some_inj x y (rw (n, q) at e) in
          (subst P here h.0, subst (λ z. p z ≡ true) here q)
    ]
  ]
