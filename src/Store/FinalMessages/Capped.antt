-- ===== src/Store/FinalMessages/Capped.antt =====
-- src/store.rs: what the cap on the final messages keeps.
use mathlib.Core.List.{append-nil, append_assoc}
use openab_control_plane.Prelude.{
  ℕ, zero, suc, ◌-◌, ◌≤◌, ◌≡◌, refl, sym, ap, ◌∙◌, ◌⊎◌, inl, inr, ltb, true, false, List, [], ◌∷◌,
  ◌++◌, flatten, arith, Bool-cases, length, ◌<◌, ltb→lt,
}
use openab_control_plane.Text.{Text, utf8_len, len}
use openab_control_plane.Store.FinalMessages.{
  final_messages_max_bytes, total_len, from_boundary, drop_oldest, clip_last, kept_final_messages,
}

-- `short` is the end of `whole`.
abbrev pub IsEndOf : Text → Text → Type 0
IsEndOf short whole = (before : Text) × (whole ≡ before ++ short)

IsEndOf-refl : (t : Text) → IsEndOf t t
IsEndOf-refl t = ([], refl)

from_boundary-IsEndOf : (want : ℕ) (t : Text) → IsEndOf (from_boundary want t) t
unfolding from_boundary
from_boundary-IsEndOf zero t = IsEndOf-refl t
from_boundary-IsEndOf (suc want) [] = IsEndOf-refl []
from_boundary-IsEndOf (suc want) (c ∷ t) =
    let (before, e) = from_boundary-IsEndOf (suc want - utf8_len c) t in
    (c ∷ before, ap (λ u. c ∷ u) e)

-- At least `want` bytes are gone.
len-from_boundary : (want : ℕ) (t : Text) → len (from_boundary want t) ≤ len t - want
unfolding from_boundary len
len-from_boundary zero t = omega arith
len-from_boundary (suc want) [] = omega arith
len-from_boundary (suc want) (c ∷ t) = omega (arith, len-from_boundary (suc want - utf8_len c) t)

append_end : (m : Text) (short whole : Text) → IsEndOf short whole → IsEndOf short (m ++ whole)
append_end [] short whole h = h
append_end (c ∷ m) short whole h =
    let (before, e) = append_end m short whole h in (c ∷ before, ap (λ u. c ∷ u) e)

drop_oldest-IsEndOf :
    (total : ℕ) (ms : List Text) → IsEndOf (flatten (drop_oldest total ms).0) (flatten ms)
unfolding drop_oldest
drop_oldest-IsEndOf total [] = IsEndOf-refl []
drop_oldest-IsEndOf total (m ∷ []) = IsEndOf-refl (flatten (m ∷ []))
drop_oldest-IsEndOf total (m ∷ n ∷ ms) = elim (Bool-cases (ltb final_messages_max_bytes total)) [
  | inl y ↦ rw y (append_end m _ _ (drop_oldest-IsEndOf (total - len m) (n ∷ ms)))
  | inr n ↦ rw n (IsEndOf-refl _)
]

-- Either the loop got below the cap, or a single part is left.
drop_oldest-fits :
    (total : ℕ) (ms : List Text)
    → total ≡ total_len ms
    → (total_len (drop_oldest total ms).0 ≤ final_messages_max_bytes)
      ⊎ (length (drop_oldest total ms).0 ≤ 1)
unfolding drop_oldest total_len
drop_oldest-fits total [] h = inr (omega arith)
drop_oldest-fits total (m ∷ []) h = inr (omega arith)
drop_oldest-fits total (m ∷ n ∷ ms) h = elim (Bool-cases (ltb final_messages_max_bytes total)) [
  | inl y ↦ rw y (drop_oldest-fits (total - len m) (n ∷ ms) (omega (arith, h)))
  | inr k ↦ inl (rw k (ground (arith, h)))
]

clip_last_fitting :
    (ms : List Text) → total_len ms ≤ final_messages_max_bytes → clip_last ms ≡ (ms, false)
unfolding clip_last total_len
clip_last_fitting [] h = refl
clip_last_fitting (m ∷ []) h = ground (arith, h)
clip_last_fitting (m ∷ n ∷ ms) h = rw (clip_last_fitting (n ∷ ms) (omega (arith, h))) refl

-- What is kept is the end of the joined text, and it fits.
abbrev pub Capped : List Text → List Text → Type 0
Capped kept ms = IsEndOf (flatten kept) (flatten ms) × (total_len kept ≤ final_messages_max_bytes)

clip_one-Capped : (m : Text) → Capped (clip_last (m ∷ [])).0 (m ∷ [])
unfolding clip_last total_len
clip_one-Capped m = elim (Bool-cases (ltb final_messages_max_bytes (len m))) [
  | inl y ↦
      let kept = from_boundary (len m - final_messages_max_bytes) m in
      rw y (
        rw (append-nil m, append-nil kept) (from_boundary-IsEndOf _ m),
        omega (arith, len-from_boundary (len m - final_messages_max_bytes) m),
      )
  | inr n ↦ rw n (IsEndOf-refl _, ground arith)
]

clip_last-Capped :
    (ms : List Text)
    → (total_len ms ≤ final_messages_max_bytes) ⊎ (length ms ≤ 1)
    → Capped (clip_last ms).0 ms
unfolding total_len
clip_last-Capped ms (inl fits) = rw (clip_last_fitting ms fits) (IsEndOf-refl _, fits)
clip_last-Capped [] (inr h) =
    rw (clip_last_fitting [] (ground arith)) (IsEndOf-refl [], ground arith)
clip_last-Capped (m ∷ []) (inr h) = clip_one-Capped m
clip_last-Capped (m ∷ n ∷ ms) (inr h) = absurd (omega (arith, h))

IsEndOf-trans : (s t u : Text) → IsEndOf s t → IsEndOf t u → IsEndOf s u
IsEndOf-trans s t u (before, e) (first, f) =
    (first ++ before, f ∙ ap (λ v. first ++ v) e ∙ sym (append_assoc first before s))

drop_oldest_fitting :
    (total : ℕ) (ms : List Text)
    → total ≤ final_messages_max_bytes
    → drop_oldest total ms ≡ (ms, false)
unfolding drop_oldest
drop_oldest_fitting total [] h = refl
drop_oldest_fitting total (m ∷ []) h = refl
drop_oldest_fitting total (m ∷ n ∷ ms) h = ground (arith, h)

-- The messages that the terminal event carries are the end of the session's final messages, read as
-- one text, and have at most 256 KiB together.
pub kept_final_messages-Capped : (ms : List Text) → Capped (kept_final_messages ms).0 ms
unfolding kept_final_messages
kept_final_messages-Capped ms =
    let dropped = (drop_oldest (total_len ms) ms).0 in
    let (end, fits) = clip_last-Capped dropped (drop_oldest-fits (total_len ms) ms refl) in
    (
      IsEndOf-trans (flatten (clip_last dropped).0) (flatten dropped) (flatten ms) end
          (drop_oldest-IsEndOf (total_len ms) ms),
      fits,
    )

overlong :
    (ms : List Text)
    → ltb final_messages_max_bytes (total_len ms) ≡ true
    → (kept_final_messages ms).1 ≡ true
unfolding kept_final_messages drop_oldest clip_last total_len
overlong [] h = ground arith
overlong (m ∷ []) h = ground arith
overlong (m ∷ n ∷ ms) h = rw h refl

-- Final messages of at most 256 KiB together are all carried and not marked as truncated, longer ones
-- are marked.
pub kept_final_messages-whole :
    (ms : List Text)
    → ((total_len ms ≤ final_messages_max_bytes) × (kept_final_messages ms ≡ (ms, false)))
      ⊎ ((final_messages_max_bytes < total_len ms) × ((kept_final_messages ms).1 ≡ true))
kept_final_messages-whole ms = elim (Bool-cases (ltb final_messages_max_bytes (total_len ms))) [
  | inl y ↦ inr (ltb→lt _ _ y, overlong ms y)
  | inr n ↦
      let fits : total_len ms ≤ final_messages_max_bytes = ground (arith, n) in
      inl (
        fits,
        unfold kept_final_messages in
            rw (drop_oldest_fitting _ ms fits, clip_last_fitting ms fits) refl,
      )
]
