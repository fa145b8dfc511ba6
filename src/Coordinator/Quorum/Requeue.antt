-- ===== src/Coordinator/Quorum/Requeue.antt =====
-- src/coordinator.rs: a chair turn that did not deliver is asked for again.
use openab_control_plane.Prelude.{
  ℕ, ◌+◌, ◌<◌, ◌≡◌, refl, ◌≢◌, ◌⊎◌, inl, inr, Bool, true, not, ◌||◌, some, List, [], ◌∷◌, ◌++◌,
  arith, All, All-append, last?, last?-append, is_some, unwrap_or, findb, Bool-cases,
}
use openab_control_plane.Text.{Text, contains, is_text_iff, text_eq, text_eq_iff, text_eq_refl}
use openab_control_plane.Store.{quorum, state_eq}
use openab_control_plane.TurnFailure.{starts_with_runtime_error_banner}
use openab_control_plane.Council.Verdict.{trailer}
use openab_control_plane.Coordinator.Defs.{Ctx, Action, prompt, reassign_chair}
use openab_control_plane.Coordinator.Quorum.{
  verdict_contract, quorum_actions_with_contract, max_synthesis_attempts, chair_step, reviewer_step,
  requeue_synthesis, next_chair, relays_to, synthesis_prompt,
  council_on_done_with_reviewer_rerequest_attempts,
}
use openab_control_plane.Coordinator.Quorum.Closing.{
  NoClose, IsDelivered, requeue_synthesis-NoClose, reviewer_step-NoClose, quorum_actions-NoClose,
}

-- Nobody but the chair whose turn failed can take it.
abbrev pub OnlyCandidate : Text → List Text → Type 0
OnlyCandidate failed candidates = All (λ c. c ≡ failed) candidates

-- A different candidate takes the turn if there is one.
abbrev pub TakesTurn : Ctx → Text → Text → Type 0
TakesTurn cx failed next =
    ((next ≢ failed) × (contains next cx.chair_candidates ≡ true))
    ⊎ ((next ≡ failed) × OnlyCandidate failed cx.chair_candidates)

find_other :
    (failed : Text) (candidates : List Text)
    → let next = unwrap_or (findb (λ c. not (text_eq c failed)) candidates) failed in
      ((next ≢ failed) × (contains next candidates ≡ true))
      ⊎ ((next ≡ failed) × OnlyCandidate failed candidates)
unfolding contains
find_other failed [] = inr (refl, tt)
find_other failed (c ∷ cs) =
    ground (arith, text_eq_iff c failed, find_other failed cs, text_eq_refl c)

next_chair-TakesTurn : (cx : Ctx) (failed : Text) → TakesTurn cx failed (next_chair cx failed)
unfolding next_chair
next_chair-TakesTurn cx failed = find_other failed cx.chair_candidates

undelivered-failed :
    (verdict : Text)
    → ¬ IsDelivered verdict
    → (not (is_some (trailer verdict)) || starts_with_runtime_error_banner verdict) ≡ true
undelivered-failed verdict h =
    elim (Bool-cases
      (not (is_some (trailer verdict)) || starts_with_runtime_error_banner verdict)) [
        | inl failed ↦ failed
        | inr good ↦ absurd (h (ground (arith, good), ground (arith, good)))
      ]

chair_step-requeues :
    (cx : Ctx) (bot : Text) (required : Bool)
    → verdict_contract cx required ≡ true
    → some bot ≡ cx.chair
    → cx.state ≡ quorum
    → ¬ IsDelivered (unwrap_or (cx.latest_settled bot) [])
    → cx.synthesis_attempts < max_synthesis_attempts
    → chair_step cx bot required ≡ requeue_synthesis cx bot
unfolding chair_step state_eq
chair_step-requeues cx bot required owed seat state undelivered left =
    let turn = (is_text_iff bot cx.chair).1 seat in
    let in_quorum : state_eq cx.state quorum ≡ true = rw state refl in
    let failed = undelivered-failed _ undelivered in ground (arith, turn, in_quorum, failed)

requeue_synthesis-last :
    (cx : Ctx) (bot : Text)
    → last? (requeue_synthesis cx bot)
      ≡ some (prompt (next_chair cx bot) (synthesis_prompt (cx.synthesis_attempts + 1)))
unfolding requeue_synthesis
requeue_synthesis-last cx bot =
    let next = next_chair cx bot in
    let again : List Action = prompt next (synthesis_prompt (cx.synthesis_attempts + 1)) ∷ [] in
    elim (Bool-cases (not (text_eq next bot))) [
      | inl other ↦
          rw other
            (last?-append (reassign_chair next ∷ relays_to next bot cx.done_voters) again refl)
      | inr same ↦ rw same refl
    ]

-- The chair's done in Quorum, without a delivered verdict that is owed and with attempts left,
-- closes nothing: the last action asks the next chair for attempt number `attempts + 1`, and a
-- different candidate takes the turn if there is one.
pub council_on_done-requeues :
    (cx : Ctx) (bot content : Text) (required : Bool) (rerequests : ℕ)
    → verdict_contract cx required ≡ true
    → some bot ≡ cx.chair
    → cx.state ≡ quorum
    → ¬ IsDelivered (unwrap_or (cx.latest_settled bot) [])
    → cx.synthesis_attempts < max_synthesis_attempts
    → let actions =
        council_on_done_with_reviewer_rerequest_attempts cx bot content required rerequests in
      let next = next_chair cx bot in
      All NoClose actions
      × (last? actions ≡ some (prompt next (synthesis_prompt (cx.synthesis_attempts + 1))))
      × TakesTurn cx bot next
unfolding council_on_done_with_reviewer_rerequest_attempts
council_on_done-requeues cx bot content required rerequests owed seat state undelivered left =
    let next = next_chair cx bot in
    let first = reviewer_step cx bot required rerequests in
    let middle = quorum_actions_with_contract cx content required in
    let again : List Action = prompt next (synthesis_prompt (cx.synthesis_attempts + 1)) ∷ [] in
    rw (chair_step-requeues cx bot required owed seat state undelivered left) (
      All-append NoClose first (middle ++ requeue_synthesis cx bot)
          (reviewer_step-NoClose cx bot required rerequests)
          (All-append NoClose middle (requeue_synthesis cx bot)
            (quorum_actions-NoClose cx content required) (requeue_synthesis-NoClose cx bot)),
      last?-append first (middle ++ requeue_synthesis cx bot)
          (last?-append middle (requeue_synthesis cx bot) (requeue_synthesis-last cx bot)),
      next_chair-TakesTurn cx bot,
    )
