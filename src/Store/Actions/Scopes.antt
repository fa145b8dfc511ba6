-- ===== src/Store/Actions/Scopes.antt =====
-- A trigger of a controller stays in one scope: the claims of triggers, which an admission makes.
pub mod Bound
use openab_control_plane.Prelude.{
  ℕ, suc, ◌≤◌, ◌+◌, ◌==◌, ◌≡◌, ◌⊎◌, refl, sym, ap, ◌∙◌, subst, Bool, true, false, not, ◌&&◌, ◌||◌,
  Option, some, none, List, [], ◌∷◌, ◌++◌, if◌then◌else◌, anyb, findb, arith, Bool-cases,
  Option-cases, inl, inr, All, All-append, All-map, All-update_where, some_inj, update_where,
  count_where, count_where-append, count_where_of_findb, is_some_and, findb_holds,
}
use openab_control_plane.Text.{Text, codes, text_eq, text_eq_iff, text_eq_refl}
use openab_control_plane.Store.Json.{Value}
use openab_control_plane.Store.Database.{
  TriggerScope, ControllerAction, ControllerSession, Database,
}
use openab_control_plane.Store.Actions.{
  ActionRequest, ControllerOpenIntent, ControllerSessionBinding, ControllerActionStart, is_current,
  is_open_action, claim_after, claim_trigger, insert_action, begin_controller_action,
}
use openab_control_plane.Store.Actions.Journal.{IsClaiming, begin_cases}
use openab_control_plane.Store.Actions.Finish.{
  same_option, is_claimed, admitted_intent, matches_intent, insert_session,
  finish_controller_action,
}
use openab_control_plane.Store.Actions.Finish.Effect.{IsBinding, finish_cases}

abbrev pub is_claim_of : Text → Text → TriggerScope → Bool
is_claim_of c trigger t = text_eq t.controller_id c && text_eq t.trigger_ref trigger

-- The session's trigger is claimed for the session's scope.
abbrev pub IsClaimedBy : List TriggerScope → ControllerSession → Type 0
IsClaimedBy claims s =
    anyb
      (λ (t : TriggerScope).
        text_eq t.controller_id s.controller_id
        && text_eq t.trigger_ref s.trigger_ref
        && text_eq t.scope s.scope)
      claims
    ≡ true

-- The claims of the store: at most one for each trigger, one for each session that is bound, and at
-- most one current session for each trigger.
pub record IsScoped (db : Database) : Type 0 where
  pub one_claim : (c trigger : Text) → count_where (is_claim_of c trigger) db.trigger_scopes ≤ 1
  pub claimed : All (IsClaimedBy db.trigger_scopes) db.controller_sessions
  pub one_current :
      (c trigger : Text) → count_where (is_current c trigger) db.controller_sessions ≤ 1

anyb-append_left :
    {A : Type 0} (p : A → Bool) (xs ys : List A) → anyb p xs ≡ true → anyb p (xs ++ ys) ≡ true
anyb-append_left p [] ys h = cc
anyb-append_left p (x ∷ xs) ys h = ground (arith, anyb-append_left p xs ys)

-- A claim is a new row for a trigger without one, or none.
claim_after_cases :
    (db : Database) (r : ActionRequest) (intent : ControllerOpenIntent) (scopes : List TriggerScope)
    (known : Option TriggerScope)
    → findb (is_claim_of r.controller_id intent.trigger_ref) db.trigger_scopes ≡ known
    → claim_after db r intent known ≡ some scopes
    → (scopes ≡ db.trigger_scopes)
      ⊎ ((t : TriggerScope) × (scopes ≡ db.trigger_scopes ++ (t ∷ []))
          × (findb (is_claim_of t.controller_id t.trigger_ref) db.trigger_scopes ≡ none))
unfolding claim_after
claim_after_cases db r intent scopes none e h = inr (
  record {
    controller_id = r.controller_id;
    trigger_ref = intent.trigger_ref;
    scope = r.scope;
    created_at = r.now;
  },
  sym (some_inj _ scopes h),
  e,
)
claim_after_cases db r intent scopes (some t) e h = elim (Bool-cases (text_eq t.scope r.scope)) [
  | inl m ↦ inl (sym (some_inj db.trigger_scopes scopes (rw m at h)))
  | inr m ↦ absurd (cc (rw m at h))
]

claim_trigger_cases :
    (db : Database) (r : ActionRequest) (intent : ControllerOpenIntent) (scopes : List TriggerScope)
    → claim_trigger db r intent ≡ some scopes
    → (scopes ≡ db.trigger_scopes)
      ⊎ ((t : TriggerScope) × (scopes ≡ db.trigger_scopes ++ (t ∷ []))
          × (findb (is_claim_of t.controller_id t.trigger_ref) db.trigger_scopes ≡ none))
unfolding claim_trigger
claim_trigger_cases db r intent scopes h =
    claim_after_cases db r intent scopes
      (findb (is_claim_of r.controller_id intent.trigger_ref) db.trigger_scopes) refl h

claims_cases :
    (db : Database) (r : ActionRequest) (scopes : List TriggerScope)
    → IsClaiming db r scopes
    → (scopes ≡ db.trigger_scopes)
      ⊎ ((t : TriggerScope) × (scopes ≡ db.trigger_scopes ++ (t ∷ []))
          × (findb (is_claim_of t.controller_id t.trigger_ref) db.trigger_scopes ≡ none))
claims_cases db r scopes (inl (e, q)) = inl q
claims_cases db r scopes (inr (intent, e, q)) = claim_trigger_cases db r intent scopes q

same_claim :
    (c trigger : Text) (t : TriggerScope)
    → is_claim_of c trigger t ≡ true
    → (c ≡ t.controller_id) × (trigger ≡ t.trigger_ref)
same_claim c trigger t h = elim (Bool-cases (text_eq t.controller_id c)) [
  | inl e ↦ (
    sym ((text_eq_iff t.controller_id c).0 e),
    sym ((text_eq_iff t.trigger_ref trigger).0 (rw e at h)),
  )
  | inr e ↦ absurd (cc (rw e at h))
]

one_claim-append :
    (claims : List TriggerScope) (t : TriggerScope) (c trigger : Text)
    → findb (is_claim_of t.controller_id t.trigger_ref) claims ≡ none
    → count_where (is_claim_of c trigger) claims ≤ 1
    → count_where (is_claim_of c trigger) (claims ++ (t ∷ [])) ≤ 1
one_claim-append claims t c trigger k h = elim (Bool-cases (is_claim_of c trigger t)) [
  | inl m ↦
      let (p, q) = same_claim c trigger t m in
      let none' : count_where (is_claim_of c trigger) claims ≡ 0 =
        subst (λ x. count_where (is_claim_of x trigger) claims ≡ 0) (sym p)
          (subst (λ x. count_where (is_claim_of t.controller_id x) claims ≡ 0) (sym q)
            (count_where_of_findb (is_claim_of t.controller_id t.trigger_ref) claims k)) in
      rw (count_where-append (is_claim_of c trigger) claims (t ∷ []), m) (omega (arith, none'))
  | inr m ↦ rw (count_where-append (is_claim_of c trigger) claims (t ∷ []), m) (omega (arith, h))
]

begin_scopes :
    (db : Database) (scopes : List TriggerScope)
    → (scopes ≡ db.trigger_scopes)
      ⊎ ((t : TriggerScope) × (scopes ≡ db.trigger_scopes ++ (t ∷ []))
          × (findb (is_claim_of t.controller_id t.trigger_ref) db.trigger_scopes ≡ none))
    → IsScoped db
    → ((c trigger : Text) → count_where (is_claim_of c trigger) scopes ≤ 1)
      × All (IsClaimedBy scopes) db.controller_sessions
begin_scopes db scopes (inl e) v = rw e (v.one_claim, v.claimed)
begin_scopes db scopes (inr (t, e, k)) v = rw e (
  λ c trigger. one_claim-append db.trigger_scopes t c trigger k (v.one_claim c trigger),
  All-map (IsClaimedBy db.trigger_scopes) (IsClaimedBy (db.trigger_scopes ++ (t ∷ [])))
      (λ (s : ControllerSession) h. anyb-append_left _ db.trigger_scopes (t ∷ []) h)
      db.controller_sessions v.claimed,
)

-- Every answer of `begin_controller_action` keeps the claims.
pub begin-IsScoped :
    (db db' : Database) (r : ActionRequest) (s : ControllerActionStart)
    → begin_controller_action db r ≡ some (db', s)
    → IsScoped db
    → IsScoped db'
unfolding insert_action
begin-IsScoped db db' r s h v = elim (begin_cases db r db' s h) [
  | inl (e, n) ↦ subst IsScoped (sym e) v
  | inr (inl (e, n)) ↦
      subst IsScoped (sym e)
        (record { one_claim = v.one_claim; claimed = v.claimed; one_current = v.one_current })
  | inr (inr (k, scopes, d, f, n, none', rate, g, q, u)) ↦
      let kept = begin_scopes db scopes (claims_cases db r scopes g) v in
      subst IsScoped (sym q)
        (record { one_claim = kept.0; claimed = kept.1; one_current = v.one_current })
]
