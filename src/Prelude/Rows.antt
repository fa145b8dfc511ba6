-- ===== src/Prelude/Rows.antt =====
-- The SQL statements of the store over a table: its rows as a list, in the order of their insertion.
use Prim.Native.Nat.{ℕ, suc, ◌+◌}
use mathlib.Core.Path.{◌≡◌, refl, subst}
use mathlib.Core.Bool.{Bool, true, false}
use mathlib.Core.List.{List, [], ◌∷◌, ◌++◌, map}
use native.Mathlib.Omega.{arith}
use openab_control_plane.Prelude.Tests.{if◌then◌else◌, Bool-cases}
use openab_control_plane.Prelude.Lists.{All, All-map, filterb}
use mathlib.Core.Logic.{◌⊎◌, inl, inr}

module _ {ℓ} {A : Type ℓ} where
  -- `UPDATE … SET f WHERE p`.
  abbrev pub update_where : (A → Bool) → (A → A) → List A → List A
  update_where p f [] = []
  update_where p f (x ∷ xs) = (if p x then f x else x) ∷ update_where p f xs

  -- `COUNT(*) … WHERE p`, and the number of rows that an update changes.
  abbrev pub count_where : (A → Bool) → List A → ℕ
  count_where p [] = 0
  count_where p (x ∷ xs) = if p x then suc (count_where p xs) else count_where p xs

  -- `ORDER BY`, where rows that are not told apart keep their order.
  abbrev pub insert_by : (A → A → Bool) → A → List A → List A
  insert_by before x [] = x ∷ []
  insert_by before x (y ∷ ys) = if before x y then x ∷ y ∷ ys else y ∷ insert_by before x ys

  abbrev pub order_by : (A → A → Bool) → List A → List A
  order_by before [] = []
  order_by before (x ∷ xs) = insert_by before x (order_by before xs)

  pub All-update_where {κ κ'} :
      (P : A → Type κ) (Q : A → Type κ') (p : A → Bool) (f : A → A)
      → ((x : A) → P x → p x ≡ true → Q (f x))
      → ((x : A) → P x → p x ≡ false → Q x)
      → (xs : List A) → All P xs
      → All Q (update_where p f xs)
  All-update_where P Q p f yes' no' [] h = tt
  All-update_where P Q p f yes' no' (x ∷ xs) h = elim (Bool-cases (p x)) [
    | inl e ↦ (rw e (yes' x h.0 e), All-update_where P Q p f yes' no' xs h.1)
    | inr e ↦ (rw e (no' x h.0 e), All-update_where P Q p f yes' no' xs h.1)
  ]

  pub map-update_where {κ} :
      {B : Type κ} (g : A → B) (p : A → Bool) (f : A → A)
      → ((x : A) → g (f x) ≡ g x)
      → (xs : List A) → map g (update_where p f xs) ≡ map g xs
  map-update_where g p f same [] = refl
  map-update_where g p f same (x ∷ xs) = elim (Bool-cases (p x)) [
    | inl e ↦ rw (e, same x, map-update_where g p f same xs) refl
    | inr e ↦ rw (e, map-update_where g p f same xs) refl
  ]

  pub count_where-append :
      (p : A → Bool) (xs ys : List A)
      → count_where p (xs ++ ys) ≡ count_where p xs + count_where p ys
  count_where-append p [] ys = omega arith
  count_where-append p (x ∷ xs) ys = ground (arith, count_where-append p xs ys)

  pub All-insert_by {κ} :
      (P : A → Type κ) (before : A → A → Bool) (x : A) (xs : List A)
      → P x
      → All P xs
      → All P (insert_by before x xs)
  All-insert_by P before x [] h k = (h, tt)
  All-insert_by P before x (y ∷ ys) h k = elim (Bool-cases (before x y)) [
    | inl e ↦ rw e (h, k)
    | inr e ↦ rw e (k.0, All-insert_by P before x ys h k.1)
  ]

  pub All-order_by {κ} :
      (P : A → Type κ) (before : A → A → Bool) (xs : List A) → All P xs → All P (order_by before xs)
  All-order_by P before [] h = tt
  All-order_by P before (x ∷ xs) h =
      All-insert_by P before x (order_by before xs) h.0 (All-order_by P before xs h.1)

module _ {A : Type 0} where
  -- The rows that stand in a table.
  abbrev pub Has : A → List A → Type 0
  Has a [] = ⊥
  Has a (x ∷ xs) = (x ≡ a) ⊎ Has a xs

  pub Has-append : (a : A) (xs ys : List A) → Has a xs → Has a (xs ++ ys)
  Has-append a [] ys h = elim h [ ]
  Has-append a (x ∷ xs) ys (inl e) = inl e
  Has-append a (x ∷ xs) ys (inr h) = inr (Has-append a xs ys h)

  -- A row that an update does not select stays as it is.
  pub Has-update_where :
      (a : A) (p : A → Bool) (f : A → A) (xs : List A)
      → p a ≡ false
      → Has a xs
      → Has a (update_where p f xs)
  Has-update_where a p f [] e h = elim h [ ]
  Has-update_where a p f (x ∷ xs) e (inl q) = inl (rw q (rw e refl))
  Has-update_where a p f (x ∷ xs) e (inr h) = inr (Has-update_where a p f xs e h)

  pub Has-filterb :
      (a : A) (p : A → Bool) (xs : List A) → p a ≡ true → Has a xs → Has a (filterb p xs)
  Has-filterb a p [] e h = elim h [ ]
  Has-filterb a p (x ∷ xs) e (inl q) = rw q (rw e (inl refl))
  Has-filterb a p (x ∷ xs) e (inr h) = elim (Bool-cases (p x)) [
    | inl t ↦ rw t (inr (Has-filterb a p xs e h))
    | inr t ↦ rw t (Has-filterb a p xs e h)
  ]

  pub Has-All {κ} : (P : A → Type κ) (a : A) (xs : List A) → All P xs → Has a xs → P a
  Has-All P a [] h m = elim m [ ]
  Has-All P a (x ∷ xs) h (inl q) = subst P q h.0
  Has-All P a (x ∷ xs) h (inr m) = Has-All P a xs h.1 m

  pub All-filterb {κ} :
      (P : A → Type κ) (p : A → Bool) (xs : List A) → All P xs → All P (filterb p xs)
  All-filterb P p [] h = tt
  All-filterb P p (x ∷ xs) h = elim (Bool-cases (p x)) [
    | inl t ↦ rw t (h.0, All-filterb P p xs h.1)
    | inr t ↦ rw t (All-filterb P p xs h.1)
  ]

  pub All-Has : (xs : List A) → All (λ x. Has x xs) xs
  All-Has [] = tt
  All-Has (x ∷ xs) =
      (inl refl, All-map (λ y. Has y xs) (λ y. Has y (x ∷ xs)) (λ y h. inr h) xs (All-Has xs))
