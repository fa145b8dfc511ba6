-- ===== src/Coordinator/Modes/Stages.antt =====
-- src/coordinator.rs: the order of the pipeline's stages.
use openab_control_plane.Prelude.{
  ℕ, zero, suc, ◌≡◌, refl, ap, ◌⊎◌, inl, inr, true, some, none, List, [], ◌∷◌, arith, positionb,
  get_elem?, unwrap_or, length, Option-cases,
}
use openab_control_plane.Text.{Text, text_eq, text_eq_iff, contains}
use openab_control_plane.Store.{deliberating}
use openab_control_plane.Session.Quorum.{IsDistinct}
use openab_control_plane.Coordinator.Defs.{Ctx, Action, relay, prompt, close}
use openab_control_plane.Coordinator.Modes.{pipeline_on_done, handoff_prompt}

get_elem?-contains :
    (roster : List Text) (i : ℕ) (bot : Text)
    → get_elem? roster i ≡ some bot
    → contains bot roster ≡ true
unfolding contains
get_elem?-contains [] i bot h = cc
get_elem?-contains (b ∷ roster) zero bot h = ground (arith, text_eq_iff b bot)
get_elem?-contains (b ∷ roster) (suc i) bot h = ground (arith, get_elem?-contains roster i bot)

-- In a roster of different bots each is found at its own place.
position-get_elem? :
    (roster : List Text) (i : ℕ) (bot : Text)
    → IsDistinct roster
    → get_elem? roster i ≡ some bot
    → positionb (λ b. text_eq b bot) roster ≡ some i
position-get_elem? [] i bot d h = cc
position-get_elem? (b ∷ roster) zero bot d h = ground (arith, text_eq_iff b bot)
position-get_elem? (b ∷ roster) (suc i) bot d h =
    ground (
      arith,
      text_eq_iff b bot,
      get_elem?-contains roster i bot,
      position-get_elem? roster i bot d.1,
    )

-- What the done of stage `i` leads to.
abbrev pub HandsOver : Ctx → ℕ → Text → List Action → Type 0
HandsOver cx i bot actions =
    ((next : Text) × (get_elem? cx.roster (suc i) ≡ some next)
      × (actions ≡ relay bot next ∷ prompt next handoff_prompt ∷ []))
    ⊎ ((length cx.roster ≡ suc i)
        × (actions ≡ close deliberating bot (unwrap_or (cx.latest_settled bot) []) ∷ []))

last_index :
    {A : Type 0} (xs : List A) (i : ℕ) (x : A)
    → get_elem? xs i ≡ some x
    → get_elem? xs (suc i) ≡ none
    → length xs ≡ suc i
last_index [] i x h e = cc
last_index (y ∷ []) zero x h e = refl
last_index (y ∷ z ∷ xs) zero x h e = cc
last_index (y ∷ xs) (suc i) x h e = ap suc (last_index xs i x h e)

-- In a roster of different bots the done of every stage hands its output to the stage behind it,
-- and only the last stage closes the session.
pub pipeline_on_done-HandsOver :
    (cx : Ctx) (i : ℕ) (bot : Text)
    → IsDistinct cx.roster
    → get_elem? cx.roster i ≡ some bot
    → HandsOver cx i bot (pipeline_on_done cx bot)
unfolding pipeline_on_done
pipeline_on_done-HandsOver cx i bot d h =
    let found = position-get_elem? cx.roster i bot d h in
    elim (Option-cases (get_elem? cx.roster (suc i))) [
      | inl e ↦ inr (last_index cx.roster i bot h e, ground (arith, found))
      | inr (next, e) ↦ inl (next, e, ground (arith, found))
    ]
