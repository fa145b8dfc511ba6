-- ===== src/Coordinator/Quorum/Closing.antt =====
-- src/coordinator.rs: when the council closes a session, and when it asks the chair again.
use openab_control_plane.Prelude.{
  ℕ, ◌+◌, ◌≤◌, ◌≡◌, refl, ◌⊎◌, inl, inr, Bool, true, false, not, ◌&&◌, ◌||◌, some, List, [], ◌∷◌,
  ◌++◌, arith, ltb, All-if, All, All-append, All-map, is_some, unwrap_or, map, Bool-cases,
}
use openab_control_plane.Text.{Text, is_text, is_text_iff, text_eq}
use openab_control_plane.Store.{
  SessionState, open_state, deliberating, quorum, closed, aborted, state_eq,
}
use openab_control_plane.TurnFailure.{starts_with_runtime_error_banner}
use openab_control_plane.Council.Verdict.{trailer}
use openab_control_plane.Coordinator.Defs.{Ctx, Action, relay, prompt, close}
use openab_control_plane.Coordinator.Quorum.{
  verdict_contract, quorum_actions_with_contract, max_synthesis_attempts, reviewer_actions,
  chair_actions, chair_step, reviewer_step, invalid_reviewer_action, requeue_synthesis, next_chair,
  relays_to, synthesis_prompt, council_on_done_with_reviewer_rerequest_attempts,
}

-- The final has a verdict trailer and does not open with an error banner.
abbrev pub IsDelivered : Text → Type 0
IsDelivered verdict =
    (is_some (trailer verdict) ≡ true) × (starts_with_runtime_error_banner verdict ≡ false)

abbrev pub ClosesInOrder : Ctx → Text → Bool → Action → Type 0
ClosesInOrder cx bot required (close from author verdict) =
    (from ≡ quorum)
    × (cx.state ≡ quorum)
    × (author ≡ bot)
    × (some bot ≡ cx.chair)
    × (verdict ≡ unwrap_or (cx.latest_settled bot) [])
    × ((verdict_contract cx required ≡ false)
        ⊎ IsDelivered verdict
        ⊎ (max_synthesis_attempts ≤ cx.synthesis_attempts))
ClosesInOrder cx bot required _ = Unit

state_eq_quorum : (s : SessionState) → state_eq s quorum ≡ true → s ≡ quorum
unfolding state_eq
state_eq_quorum quorum h = refl
state_eq_quorum open_state h = cc
state_eq_quorum deliberating h = cc
state_eq_quorum closed h = cc
state_eq_quorum aborted h = cc

abbrev pub NoClose : Action → Type 0
NoClose (close from author verdict) = ⊥
NoClose _ = Unit

NoClose-ClosesInOrder :
    (cx : Ctx) (bot : Text) (required : Bool) (a : Action)
    → NoClose a
    → ClosesInOrder cx bot required a
NoClose-ClosesInOrder cx bot required (close from author verdict) h = absurd h
NoClose-ClosesInOrder cx bot required (relay from to) h = tt
NoClose-ClosesInOrder cx bot required _ h = tt

relays-NoClose : (next : Text) (voters : List Text) → All NoClose (map (λ v. relay v next) voters)
relays-NoClose next [] = tt
relays-NoClose next (v ∷ voters) = (tt, relays-NoClose next voters)

relays_to-NoClose :
    (next failed : Text) (voters : List Text) → All NoClose (relays_to next failed voters)
unfolding relays_to
relays_to-NoClose next failed voters = relays-NoClose next _

pub requeue_synthesis-NoClose : (cx : Ctx) (bot : Text) → All NoClose (requeue_synthesis cx bot)
unfolding requeue_synthesis
requeue_synthesis-NoClose cx bot =
    let next = next_chair cx bot in
    let relays : List Action = relays_to next bot cx.done_voters in
    let again : List Action = prompt next (synthesis_prompt (cx.synthesis_attempts + 1)) ∷ [] in
    All-if NoClose (not (text_eq (next_chair cx bot) bot)) _ _
      (tt, All-append NoClose relays again (relays_to-NoClose next bot cx.done_voters) (tt, tt))
      (tt, tt)

reviewer_actions-NoClose :
    (cx : Ctx) (bot : Text) (required : Bool) (attempts : ℕ)
    → All NoClose (reviewer_actions cx bot required attempts)
unfolding reviewer_actions invalid_reviewer_action
reviewer_actions-NoClose cx bot required attempts = ground arith

pub quorum_actions-NoClose :
    (cx : Ctx) (content : Text) (required : Bool)
    → All NoClose (quorum_actions_with_contract cx content required)
unfolding quorum_actions_with_contract
quorum_actions-NoClose cx content required = ground arith

chair_actions-ClosesInOrder :
    (cx : Ctx) (bot : Text) (required : Bool)
    → some bot ≡ cx.chair
    → cx.state ≡ quorum
    → All (ClosesInOrder cx bot required) (chair_actions cx bot required)
unfolding chair_actions
chair_actions-ClosesInOrder cx bot required seat state =
    let verdict = unwrap_or (cx.latest_settled bot) [] in
    let failed = not (is_some (trailer verdict)) || starts_with_runtime_error_banner verdict in
    elim (Bool-cases (
      verdict_contract cx required && failed && ltb cx.synthesis_attempts max_synthesis_attempts)) [
        | inl again ↦ rw again (
            All-map NoClose _ (NoClose-ClosesInOrder cx bot required) _
              (requeue_synthesis-NoClose cx bot))
        | inr done ↦ rw done ((refl, state, refl, seat, refl, ground (arith, done)), tt)
      ]

ignored :
    (cx : Ctx) (bot : Text) (required : Bool) (l : List Action)
    → All NoClose l
    → All (ClosesInOrder cx bot required) l
ignored cx bot required l = All-map NoClose _ (NoClose-ClosesInOrder cx bot required) l

chair_step-ClosesInOrder :
    (cx : Ctx) (bot : Text) (required : Bool)
    → All (ClosesInOrder cx bot required) (chair_step cx bot required)
unfolding chair_step
chair_step-ClosesInOrder cx bot required =
    elim (Bool-cases (is_text bot cx.chair && state_eq cx.state quorum)) [
      | inl turn ↦ rw turn (
          chair_actions-ClosesInOrder cx bot required
            ((is_text_iff bot cx.chair).0 (ground (arith, turn)))
            (state_eq_quorum cx.state (ground (arith, turn))))
      | inr wait ↦ rw wait tt
    ]

pub reviewer_step-NoClose :
    (cx : Ctx) (bot : Text) (required : Bool) (attempts : ℕ)
    → All NoClose (reviewer_step cx bot required attempts)
unfolding reviewer_step
reviewer_step-NoClose cx bot required attempts =
    All-if NoClose (not (is_text bot cx.chair)) _ []
      (reviewer_actions-NoClose cx bot required attempts) tt

-- Whatever reaches the council, it closes only from Quorum, on the done of the chair itself and with
-- the chair's last settled text; where a verdict is owed, only if that text delivers one or the
-- attempts are used up.
pub council_on_done-ClosesInOrder :
    (cx : Ctx) (bot content : Text) (required : Bool) (attempts : ℕ)
    → All
        (ClosesInOrder cx bot required)
        (council_on_done_with_reviewer_rerequest_attempts cx bot content required attempts)
unfolding council_on_done_with_reviewer_rerequest_attempts
council_on_done-ClosesInOrder cx bot content required attempts =
    let first = reviewer_step cx bot required attempts in
    let middle = quorum_actions_with_contract cx content required in
    let last = chair_step cx bot required in
    All-append (ClosesInOrder cx bot required) first (middle ++ last)
      (ignored cx bot required first (reviewer_step-NoClose cx bot required attempts))
      (All-append (ClosesInOrder cx bot required) middle last
        (ignored cx bot required middle (quorum_actions-NoClose cx content required))
        (chair_step-ClosesInOrder cx bot required))
