-- ===== src/Prelude/Keyed.antt =====
-- Finding the row of a key in a table whose rows are updated.
use Prim.Native.Nat.{suc, ◌≤◌, ◌<◌}
use mathlib.Core.Path.{◌≡◌, refl, ap, ◌∙◌, subst}
use mathlib.Core.Bool.{Bool, true, false}
use mathlib.Core.List.{List, [], ◌∷◌, ◌++◌}
use mathlib.Core.Option.{none, some}
use mathlib.Core.Logic.{inl, inr}
use native.Mathlib.Omega.{arith}
use openab_control_plane.Prelude.Tests.{Bool-cases, some_inj}
use openab_control_plane.Prelude.Lists.{findb}
use openab_control_plane.Prelude.Rows.{update_where, count_where}

pub count_where_mono {ℓ} :
    {A : Type ℓ} (p q : A → Bool) (xs : List A)
    → ((x : A) → p x ≡ true → q x ≡ true)
    → count_where p xs ≤ count_where q xs
count_where_mono p q [] sub = omega arith
count_where_mono p q (x ∷ xs) sub = elim (Bool-cases (p x)) [
  | inl t ↦ rw (t, sub x t) (omega (arith, count_where_mono p q xs sub))
  | inr t ↦ elim (Bool-cases (q x)) [
    | inl s ↦ rw (t, s) (omega (arith, count_where_mono p q xs sub))
    | inr s ↦ rw (t, s) (count_where_mono p q xs sub)
  ]
]

module _ {ℓ} {A : Type ℓ} (q : A → Bool) where
  -- The row of a key stays where an update does not select it and keeps all keys.
  pub findb-update_where :
      (p : A → Bool) (f : A → A) (xs : List A) {a : A}
      → ((x : A) → q (f x) ≡ q x)
      → p a ≡ false
      → findb q xs ≡ some a
      → findb q (update_where p f xs) ≡ some a
  findb-update_where p f [] same e h = h
  findb-update_where p f (x ∷ xs) {a} same e h = elim (Bool-cases (q x)) [
    | inl t ↦
        let here : x ≡ a = some_inj x a (rw t at h) in
        let kept : p x ≡ false = rw here e in rw kept (rw t (ap some here))
    | inr t ↦
        let rest = findb-update_where p f xs {a = a} same e (rw t at h) in
        elim (Bool-cases (p x)) [ inl s ↦ rw s (rw (same x ∙ t) rest) | inr s ↦ rw s (rw t rest) ]
  ]

  pub findb-append : (xs ys : List A) {a : A} → findb q xs ≡ some a → findb q (xs ++ ys) ≡ some a
  findb-append [] ys h = cc
  findb-append (x ∷ xs) ys {a} h = elim (Bool-cases (q x)) [
    | inl t ↦ rw t (rw t at h)
    | inr t ↦ rw t (findb-append xs ys {a = a} (rw t at h))
  ]

  pub findb_holds : (xs : List A) {a : A} → findb q xs ≡ some a → q a ≡ true
  findb_holds [] h = cc
  findb_holds (x ∷ xs) {a} h = elim (Bool-cases (q x)) [
    | inl e ↦ let here : x ≡ a = some_inj x a (rw e at h) in subst (λ b. q b ≡ true) here e
    | inr e ↦ findb_holds xs {a = a} (rw e at h)
  ]

  pub count_where_of_findb : (xs : List A) → findb q xs ≡ none → count_where q xs ≡ 0
  count_where_of_findb [] h = refl
  count_where_of_findb (x ∷ xs) h = elim (Bool-cases (q x)) [
    | inl t ↦ absurd (cc (rw t at h))
    | inr t ↦ rw t (count_where_of_findb xs (rw t at h))
  ]

  pub count_where-update_where :
      (p : A → Bool) (f : A → A) (xs : List A)
      → ((x : A) → q (f x) ≡ q x)
      → count_where q (update_where p f xs) ≡ count_where q xs
  count_where-update_where p f [] same = refl
  count_where-update_where p f (x ∷ xs) same = elim (Bool-cases (p x)) [
    | inl s ↦ rw (s, same x, count_where-update_where p f xs same) refl
    | inr s ↦ rw (s, count_where-update_where p f xs same) refl
  ]

  -- The only row of a key, when an update of that key selects a row, is the row that is updated.
  pub findb-update_where_selected :
      (p : A → Bool) (f : A → A) (xs : List A) {a : A}
      → ((x : A) → q (f x) ≡ q x)
      → ((x : A) → p x ≡ true → q x ≡ true)
      → count_where q xs ≤ 1
      → 0 < count_where p xs
      → findb q xs ≡ some a
      → findb q (update_where p f xs) ≡ some (f a)
  findb-update_where_selected p f [] same sub one some' h = cc
  findb-update_where_selected p f (x ∷ xs) {a} same sub one some' h = elim (Bool-cases (q x)) [
    | inl t ↦
        let here : x ≡ a = some_inj x a (rw t at h) in
        elim (Bool-cases (p x)) [
          | inl s ↦ rw s (rw (same x ∙ t) (ap (λ y. some (f y)) here))
          | inr s ↦
              let none' : count_where q xs ≤ 0 =
                let o : suc (count_where q xs) ≤ 1 = rw t at one in omega (arith, o) in
              absurd (omega (arith, count_where_mono p q xs sub, rw s at some', none'))
        ]
    | inr t ↦
        let s : p x ≡ false = elim (Bool-cases (p x)) [
          | inl u ↦ absurd (cc (sub x u, t))
          | inr u ↦ u
        ] in
        rw (s, t)
          (findb-update_where_selected p f xs {a = a} same sub (rw t at one) (rw s at some')
            (rw t at h))
  ]
