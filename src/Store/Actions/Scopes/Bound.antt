-- ===== src/Store/Actions/Scopes/Bound.antt =====
-- The sessions that `finish_controller_action` binds lie in the scope of their trigger's claim.
use openab_control_plane.Prelude.{
  ℕ, ◌≤◌, ◌≡◌, refl, sym, ap, ◌∙◌, subst, Bool, true, false, ◌&&◌, Option, some, none, List, [],
  ◌∷◌, ◌++◌, anyb, arith, Bool-cases, inl, inr, All, All-append, All-update_where, some_inj,
  update_where, count_where, count_where-append, is_some_and, findb_holds,
}
use openab_control_plane.Text.{Text, codes, text_eq, text_eq_iff}
use openab_control_plane.Store.Json.{Value}
use openab_control_plane.Store.Database.{ControllerAction, ControllerSession, Database}
use openab_control_plane.Store.Actions.{
  ActionRequest, ControllerSessionBinding, ControllerActionStart, is_current, is_open_action,
  begin_controller_action,
}
use openab_control_plane.Store.Actions.Finish.{
  same_option, is_claimed, admitted_intent, matches_intent, insert_session,
  finish_controller_action,
}
use openab_control_plane.Store.Actions.Finish.Effect.{IsBinding, finish_cases}
use openab_control_plane.Store.Actions.Scopes.{IsClaimedBy, IsScoped, begin-IsScoped}

is_open_intent : Database → Text → Text → ControllerAction → Bool
is_open_intent db c a x =
    is_open_action c a x
    && text_eq x.action_kind (codes "open_session")
    && is_some_and x.trigger_ref (λ t. is_claimed db x.controller_id t x.scope)

admitted_intent_holds :
    (db : Database) (c a : Text) (x : ControllerAction)
    → admitted_intent db c a ≡ some x
    → (x.controller_id ≡ c)
      × (is_some_and x.trigger_ref (λ t. is_claimed db x.controller_id t x.scope) ≡ true)
unfolding admitted_intent is_open_intent
admitted_intent_holds db c a x h =
    let holds : is_open_intent db c a x ≡ true = findb_holds (is_open_intent db c a) db.actions h in
    ((text_eq_iff x.controller_id c).0 (ground (arith, holds)), ground (arith, holds))

same_option-some : (o : Option Text) (t : Text) → same_option o (some t) ≡ true → o ≡ some t
unfolding same_option
same_option-some none t h = cc
same_option-some (some s) t h = ap some ((text_eq_iff s t).0 h)

matches_intent_holds :
    (b : ControllerSessionBinding) (x : ControllerAction)
    → matches_intent b x ≡ true
    → (x.scope ≡ b.scope) × (x.trigger_ref ≡ some b.trigger_ref)
unfolding matches_intent
matches_intent_holds b x m = (
  (text_eq_iff x.scope b.scope).0 (ground (arith, m)),
  same_option-some x.trigger_ref b.trigger_ref (ground (arith, m)),
)

-- The session that a finish binds has the scope of the claim of its trigger.
binding_claimed :
    (db : Database) (c a : Text) (b : ControllerSessionBinding) (x : ControllerAction)
    → text_eq b.controller_id c ≡ true
    → admitted_intent db c a ≡ some x
    → matches_intent b x ≡ true
    → is_claimed db b.controller_id b.trigger_ref b.scope ≡ true
binding_claimed db c a b x o h m =
    let (owner, claim) = admitted_intent_holds db c a x h in
    let (scope, trigger) = matches_intent_holds b x m in
    let same : x.controller_id ≡ b.controller_id =
      owner ∙ sym ((text_eq_iff b.controller_id c).0 o) in
    let found : is_claimed db x.controller_id b.trigger_ref x.scope ≡ true =
      subst (λ t. is_some_and t (λ u. is_claimed db x.controller_id u x.scope) ≡ true) trigger
        claim in
    subst (λ k. is_claimed db k b.trigger_ref b.scope ≡ true) same
      (subst (λ k. is_claimed db x.controller_id b.trigger_ref k ≡ true) scope found)

retire : ControllerSession → ControllerSession
retire s = record s { current = false }

retired_row : (c trigger : Text) (s : ControllerSession) → is_current c trigger (retire s) ≡ false
unfolding retire
retired_row c trigger s = ground arith

-- After the update no session of the trigger is current, and no other one has become so.
retired_none :
    (c trigger : Text) (rows : List ControllerSession)
    → count_where (is_current c trigger) (update_where (is_current c trigger) retire rows) ≡ 0
retired_none c trigger [] = refl
retired_none c trigger (s ∷ rows) = elim (Bool-cases (is_current c trigger s)) [
  | inl e ↦ rw (e, retired_row c trigger s) (retired_none c trigger rows)
  | inr e ↦ rw (e, e) (retired_none c trigger rows)
]

retired_le :
    (c trigger c' trigger' : Text) (rows : List ControllerSession)
    → count_where (is_current c' trigger') (update_where (is_current c trigger) retire rows)
      ≤ count_where (is_current c' trigger') rows
retired_le c trigger c' trigger' [] = omega arith
retired_le c trigger c' trigger' (s ∷ rows) = elim (Bool-cases (is_current c trigger s)) [
  | inl e ↦
      let kept : count_where (is_current c' trigger') rows
          ≤ count_where (is_current c' trigger') (s ∷ rows) =
        ground arith in
      rw (e, retired_row c' trigger' s) (omega (arith, kept, retired_le c trigger c' trigger' rows))
  | inr e ↦ rw e (elim (Bool-cases (is_current c' trigger' s)) [
    | inl m ↦ rw m (omega (arith, retired_le c trigger c' trigger' rows))
    | inr m ↦ rw m (retired_le c trigger c' trigger' rows)
  ])
]

same_current :
    (c trigger : Text) (s : ControllerSession)
    → is_current c trigger s ≡ true
    → (c ≡ s.controller_id) × (trigger ≡ s.trigger_ref)
same_current c trigger s h = (
  sym ((text_eq_iff s.controller_id c).0 (ground (arith, h))),
  sym ((text_eq_iff s.trigger_ref trigger).0 (ground (arith, h))),
)

one_current-append :
    (rows : List ControllerSession) (s : ControllerSession) (c trigger : Text)
    → count_where (is_current c trigger) rows ≤ 1
    → count_where
        (is_current c trigger)
        (update_where (is_current s.controller_id s.trigger_ref) retire rows ++ (s ∷ []))
      ≤ 1
one_current-append rows s c trigger h =
    let retired = update_where (is_current s.controller_id s.trigger_ref) retire rows in
    elim (Bool-cases (is_current c trigger s)) [
      | inl m ↦
          let (p, q) = same_current c trigger s m in
          let none' : count_where (is_current c trigger) retired ≡ 0 =
            subst (λ x. count_where (is_current x trigger) retired ≡ 0) (sym p)
              (subst (λ x. count_where (is_current s.controller_id x) retired ≡ 0) (sym q)
                (retired_none s.controller_id s.trigger_ref rows)) in
          rw (count_where-append (is_current c trigger) retired (s ∷ []), m) (omega (arith, none'))
      | inr m ↦
          rw (count_where-append (is_current c trigger) retired (s ∷ []), m)
            (omega (arith, h, retired_le s.controller_id s.trigger_ref c trigger rows))
    ]

insert_session_row : ControllerSessionBinding → ℕ → ControllerSession
insert_session_row b at = record {
  controller_id = b.controller_id;
  scope = b.scope;
  trigger_ref = b.trigger_ref;
  trigger_fingerprint = b.trigger_fingerprint;
  session_id = b.session_id;
  current = true;
  created_at = at;
}

insert_session_rows :
    (b : ControllerSessionBinding) (at : ℕ) (rows sessions : List ControllerSession)
    → insert_session b at rows ≡ some sessions
    → sessions
      ≡ update_where (is_current b.controller_id b.trigger_ref) retire rows
        ++ (insert_session_row b at ∷ [])
unfolding insert_session insert_session_row retire
insert_session_rows b at rows sessions h =
    elim (Bool-cases (anyb (λ (s : ControllerSession). text_eq s.session_id b.session_id) rows)) [
      | inl e ↦ absurd (cc (rw e at h))
      | inr e ↦ sym (some_inj _ sessions (rw e at h))
    ]

bound_sessions :
    (db : Database) (c a : Text) (b : Option ControllerSessionBinding) (at : ℕ)
    (sessions : List ControllerSession)
    → IsBinding db c a b at sessions
    → IsScoped db
    → All (IsClaimedBy db.trigger_scopes) sessions
      × ((c' trigger : Text) → count_where (is_current c' trigger) sessions ≤ 1)
unfolding insert_session_row retire is_claimed
bound_sessions db c a none at sessions e v = rw e (v.claimed, v.one_current)
bound_sessions db c a (some b) at sessions (x, o, h, m, i) v =
    let claims = IsClaimedBy db.trigger_scopes in
    rw (insert_session_rows b at db.controller_sessions sessions i) (
      All-append claims
          (update_where (is_current b.controller_id b.trigger_ref) retire db.controller_sessions)
          (insert_session_row b at ∷ [])
          (All-update_where claims claims (is_current b.controller_id b.trigger_ref) retire
            (λ s p q. p) (λ s p q. p) db.controller_sessions v.claimed)
          (binding_claimed db c a b x o h m, tt),
      λ c' trigger.
          one_current-append db.controller_sessions (insert_session_row b at) c' trigger
            (v.one_current c' trigger),
    )

-- A finish keeps the claims: the session that it binds lies in the scope of its trigger's claim,
-- and takes the place of the trigger's current session.
pub finish-IsScoped :
    (to_string : Value → Text) (id id' : Text) (clock clock' : ℕ) (db db' : Database) (c a : Text)
    (status : ℕ) (response : Text) (b : Option ControllerSessionBinding) (at : ℕ)
    → finish_controller_action to_string id id' clock clock' db c a status response b at ≡ some db'
    → IsScoped db
    → IsScoped db'
finish-IsScoped to_string id id' clock clock' db db' c a status response b at f v =
    let (sessions, events, audit, binding, one, q) =
      finish_cases to_string id id' clock clock' db db' c a status response b at f in
    let kept = bound_sessions db c a b at sessions binding v in
    subst IsScoped (sym q)
      (record { one_claim = v.one_claim; claimed = kept.0; one_current = kept.1 })

-- The steps of the store on the claims and the bound sessions.
pub data ScopeSteps (to_string : Value → Text) (db : Database) : Database → Type 0 where
  here : ScopeSteps to_string db db
  start :
      {db' db'' : Database} (r : ActionRequest) (s : ControllerActionStart)
      → ScopeSteps to_string db db'
      → begin_controller_action db' r ≡ some (db'', s)
      → ScopeSteps to_string db db''
  finish :
      {db' db'' : Database} (id id' : Text) (clock clock' : ℕ) (c a : Text) (status : ℕ)
      (response : Text) (b : Option ControllerSessionBinding) (at : ℕ)
      → ScopeSteps to_string db db'
      → finish_controller_action to_string id id' clock clock' db' c a status response b at
        ≡ some db''
      → ScopeSteps to_string db db''
  beside :
      {db' db'' : Database}
      → ScopeSteps to_string db db'
      → db''.trigger_scopes ≡ db'.trigger_scopes
      → db''.controller_sessions ≡ db'.controller_sessions
      → ScopeSteps to_string db db''

-- Over any series of begins, finishes and steps that touch neither claims nor bound sessions, each
-- trigger of a controller keeps at most one claim and at most one current session, and every bound
-- session lies in the scope for which its trigger is claimed.
pub steps-IsScoped :
    (to_string : Value → Text) {db db' : Database}
    → ScopeSteps to_string db db'
    → IsScoped db
    → IsScoped db'
steps-IsScoped to_string here v = v
steps-IsScoped to_string (start {db'} {db''} r s more h) v =
    begin-IsScoped db' db'' r s h (steps-IsScoped to_string more v)
steps-IsScoped to_string (finish {db'} {db''} id id' clock clock' c a status response b at more h)
      v =
    finish-IsScoped to_string id id' clock clock' db' db'' c a status response b at h
      (steps-IsScoped to_string more v)
steps-IsScoped to_string (beside {db'} {db''} more p q) v =
    let w = steps-IsScoped to_string more v in
    record {
      one_claim = rw p w.one_claim;
      claimed = rw (p, q) w.claimed;
      one_current = rw q w.one_current;
    }
