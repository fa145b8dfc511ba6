-- ===== src/Store/Sessions/Active.antt =====
-- A trigger has one active session: the one that `create_session_superseding` returns.
use openab_control_plane.Prelude.{
  ℕ, ◌<◌, ltb, ◌≡◌, refl, sym, ap, ◌∙◌, subst, Bool, true, false, Option, some, none, List, [], ◌∷◌,
  ◌++◌, anyb, first?, filterb, order_by, ◌>>=◌, is_some_and, arith, Bool-cases, Option-cases, inl,
  inr, some_inj, All, All-map, All-filterb, All-order_by, Has, count_where,
}
use openab_control_plane.Text.{Text, codes, text_eq, text_eq_refl, text_eq_iff}
use openab_control_plane.Store.Types.{Session}
use openab_control_plane.Store.Json.{Value}
use openab_control_plane.Store.Database.{Database}
use openab_control_plane.Store.Actions.{same_fingerprint}
use openab_control_plane.Store.Sessions.{is_active, is_active_for, violates_index, checked}
use openab_control_plane.Store.Sessions.Updates.{append_audit_sessions}
use openab_control_plane.Store.Sessions.Create.{
  NewSession, OpeningInput, SessionCreateOutcome, created, deduped, superseded, initial_state,
  newest_first, active_session_for_trigger_locked, new_session, insert_row, fill_session,
  open_session, supersede, open_as, open_after, create_session_superseding, superseding_detail,
}

Has-last : {A : Type 0} (xs : List A) (a : A) → Has a (xs ++ (a ∷ []))
Has-last [] a = inl refl
Has-last (x ∷ xs) a = inr (Has-last xs a)

All-Has : {A : Type 0} (xs : List A) → All (λ x. Has x xs) xs
All-Has [] = tt
All-Has (x ∷ xs) =
    (inl refl, All-map (λ y. Has y xs) (λ y. Has y (x ∷ xs)) (λ y h. inr h) xs (All-Has xs))

All-first? :
    {A : Type 0} (P : A → Type 0) (xs : List A) {a : A} → All P xs → first? xs ≡ some a → P a
All-first? P [] h e = cc
All-first? P (x ∷ xs) {a} h e = subst P (some_inj x a e) h.0

filterb-All : {A : Type 0} (p : A → Bool) (xs : List A) → All (λ x. p x ≡ true) (filterb p xs)
filterb-All p [] = tt
filterb-All p (x ∷ xs) = elim (Bool-cases (p x)) [
  | inl e ↦ rw e (e, filterb-All p xs)
  | inr e ↦ rw e (filterb-All p xs)
]

count-Has :
    {A : Type 0} (p : A → Bool) (a : A) (xs : List A) → Has a xs → p a ≡ true → 0 < count_where p xs
count-Has p a [] h e = elim h [ ]
count-Has p a (x ∷ xs) (inl q) e = rw q (rw e (omega arith))
count-Has p a (x ∷ xs) (inr h) e = ground (arith, count-Has p a xs h e)

anyb-Has :
    {A : Type 0} (p : A → Bool) (a : A) (xs : List A) → Has a xs → anyb p xs ≡ false → p a ≡ false
anyb-Has p a [] h e = elim h [ ]
anyb-Has p a (x ∷ xs) (inl q) e = subst (λ y. p y ≡ false) q (ground (arith, e))
anyb-Has p a (x ∷ xs) (inr h) e = anyb-Has p a xs h (ground (arith, e))

active_trigger : (t : Text) (s : Session) → is_active_for t s ≡ true → s.trigger_ref ≡ some t
unfolding is_active_for
active_trigger t s h = elim (Option-cases s.trigger_ref) [
  | inl e ↦ absurd (cc (rw e at h))
  | inr (u, e) ↦
      let m : text_eq u t ≡ true = ground (arith, rw e at h) in e ∙ ap some ((text_eq_iff u t).0 m)
]

-- Where the index holds, an active session is the only one of its trigger.
one_active :
    (t : Text) (s : Session) (rows : List Session)
    → violates_index rows ≡ false
    → Has s rows
    → is_active_for t s ≡ true
    → count_where (is_active_for t) rows ≡ 1
unfolding violates_index
one_active t s rows v h a =
    let e : s.trigger_ref ≡ some t = active_trigger t s a in
    let few : ltb 1 (count_where (is_active_for t) rows) ≡ false =
      subst (λ o. is_some_and o (λ u. ltb 1 (count_where (is_active_for u) rows)) ≡ false) e
        (anyb-Has
          (λ (x : Session).
            is_some_and x.trigger_ref (λ u. ltb 1 (count_where (is_active_for u) rows)))
          s rows h v) in
    let some' : 0 < count_where (is_active_for t) rows = count-Has (is_active_for t) s rows h a in
    ground (arith, few, some')

-- The session that the query finds is an active one of the trigger.
active_session-Has :
    (db : Database) (t : Text) (s : Session)
    → active_session_for_trigger_locked db t ≡ some s
    → Has s db.sessions × (is_active_for t s ≡ true)
unfolding active_session_for_trigger_locked
active_session-Has db t s h = (
  All-first? (λ x. Has x db.sessions)
      (order_by newest_first (filterb (is_active_for t) db.sessions))
      (All-order_by _ newest_first (filterb (is_active_for t) db.sessions)
        (All-filterb _ (is_active_for t) db.sessions (All-Has db.sessions)))
      h,
  All-first? (λ x. is_active_for t x ≡ true)
      (order_by newest_first (filterb (is_active_for t) db.sessions))
      (All-order_by _ newest_first (filterb (is_active_for t) db.sessions)
        (filterb-All (is_active_for t) db.sessions))
      h,
)

initial_is_active :
    (inputs : List OpeningInput)
    → (text_eq (initial_state inputs) (codes "closed") ≡ false)
      × (text_eq (initial_state inputs) (codes "aborted") ≡ false)
unfolding text_eq
initial_is_active [] = (refl, refl)
initial_is_active (input ∷ inputs) = (refl, refl)

new_session_is_active :
    (id : Text) (r : NewSession) (at : ℕ) (t : Text)
    → r.trigger_ref ≡ some t
    → is_active_for t (new_session id r at) ≡ true
unfolding new_session is_active_for is_active
new_session_is_active id r at t e =
    rw
      (
        e,
        text_eq_refl t,
        (initial_is_active r.opening_inputs).0,
        (initial_is_active r.opening_inputs).1,
      )
      refl

insert_row_cases :
    (s : Session) (rows rows' : List Session)
    → insert_row s rows ≡ some rows'
    → (rows' ≡ rows ++ (s ∷ [])) × (violates_index rows' ≡ false)
unfolding insert_row checked
insert_row_cases s rows rows' h =
    elim (Bool-cases (anyb (λ (x : Session). text_eq x.id s.id) rows)) [
      | inl e ↦ absurd (cc (rw e at h))
      | inr e ↦ elim (Bool-cases (violates_index (rows ++ (s ∷ [])))) [
        | inl v ↦ absurd (cc (rw (e, v) at h))
        | inr v ↦
            let q = some_inj (rows ++ (s ∷ [])) rows' (rw (e, v) at h) in
            (sym q, subst (λ x. violates_index x ≡ false) q v)
      ]
    ]

pair_bind :
    {A B : Type 0} (m : Option A) (b : B) (x : A × B)
    → (m >>= λ a. some (a, b)) ≡ some x
    → (m ≡ some x.0) × (x.1 ≡ b)
pair_bind none b x h = cc
pair_bind {A} {B} (some a) b x h =
    let q = some_inj (a, b) x h in (ap (λ (y : A × B). some y.0) q, sym (ap (λ (y : A × B). y.1) q))

-- The only active session of the trigger.
abbrev pub IsOnlyActive : Text → Session → Database → Type 0
IsOnlyActive t s db =
    Has s db.sessions × (is_active_for t s ≡ true) × (count_where (is_active_for t) db.sessions ≡ 1)

module _ (to_string : Value → Text) (id event_id : Text) (message_id : ℕ → Text)
    (at clock close_clock event_clock : ℕ) where
  fill_session_sessions :
      (db db' : Database) (r : NewSession) (detail : Value) (rows : List Session)
      → fill_session to_string id event_id message_id at clock close_clock event_clock db r detail
          rows
        ≡ some db'
      → db'.sessions ≡ rows
  unfolding fill_session
  fill_session_sessions db db' r detail rows h = append_audit_sessions _ db' _ h

  open_session_cases :
      (db : Database) (r : NewSession) (detail : Value) (after : Database × Session)
      → open_session to_string id event_id message_id at clock close_clock event_clock db r detail
        ≡ some after
      → (insert_row (new_session id r at) db.sessions ≡ some after.0.sessions)
        × (after.1 ≡ new_session id r at)
  unfolding open_session
  open_session_cases db r detail after h =
      elim (Option-cases (insert_row (new_session id r at) db.sessions)) [
        | inl e ↦ absurd (cc (rw e at h))
        | inr (rows, e) ↦
            let (filled, same) =
              pair_bind
                (fill_session to_string id event_id message_id at clock close_clock event_clock db r
                  detail rows)
                (new_session id r at) after (rw e at h) in
            (e ∙ ap some (sym (fill_session_sessions db after.0 r detail rows filled)), same)
      ]

  open_as-IsOnlyActive :
      (db : Database) (r : NewSession) (o : SessionCreateOutcome) (t : Text)
      (after : Database × Session × SessionCreateOutcome)
      → r.trigger_ref ≡ some t
      → open_as to_string id event_id message_id at clock close_clock event_clock db r o
        ≡ some after
      → IsOnlyActive t after.1 after.0
  unfolding open_as
  open_as-IsOnlyActive db r o t after e h =
      elim (Option-cases (
        open_session to_string id event_id message_id at clock close_clock event_clock db r (
          superseding_detail to_string id event_id message_id at clock close_clock event_clock
            r))) [
              | inl n ↦ absurd (cc (rw n at h))
              | inr (x, n) ↦
                  let (row, same) = open_session_cases db r _ x n in
                  let (q, v) =
                    insert_row_cases (new_session id r at) db.sessions x.0.sessions row in
                  let has : Has x.1 x.0.sessions =
                    rw (q, same) (Has-last db.sessions (new_session id r at)) in
                  let active : is_active_for t x.1 ≡ true =
                    rw same (new_session_is_active id r at t e) in
                  subst (λ (y : Database × Session × SessionCreateOutcome). IsOnlyActive t y.1 y.0)
                    (some_inj (x.0, x.1, o) after (rw n at h))
                    (has, active, one_active t x.1 x.0.sessions v has active)
            ]

  open_after-IsOnlyActive :
      (db : Database) (r : NewSession) (t : Text) (known : Option Session)
      (after : Database × Session × SessionCreateOutcome)
      → violates_index db.sessions ≡ false
      → r.trigger_ref ≡ some t
      → active_session_for_trigger_locked db t ≡ known
      → open_after to_string id event_id message_id at clock close_clock event_clock db r known
        ≡ some after
      → IsOnlyActive t after.1 after.0
  unfolding open_after
  open_after-IsOnlyActive db r t none after v e a h = open_as-IsOnlyActive db r created t after e h
  open_after-IsOnlyActive db r t (some existing) after v e a h =
      elim (Bool-cases (same_fingerprint existing.trigger_fingerprint r.trigger_fingerprint)) [
        | inl m ↦
            let (has, active) = active_session-Has db t existing a in
            subst (λ (x : Database × Session × SessionCreateOutcome). IsOnlyActive t x.1 x.0)
              (some_inj (db, existing, deduped) after (rw m at h))
              (has, active, one_active t existing db.sessions v has active)
        | inr m ↦
            elim (Option-cases (
              supersede to_string id event_id message_id at clock close_clock event_clock db
                existing)) [
                  | inl n ↦ absurd (cc (rw (m, n) at h))
                  | inr (closed_db, n) ↦
                      open_as-IsOnlyActive closed_db r (superseded existing.id) t after e
                        (rw (m, n) at h)
                ]
      ]

  -- Where at most one session of each trigger is active, a successful create_session_superseding
  -- with a trigger returns a session that stands in the table, is active for the trigger, and is
  -- the only one, whether it was found, created or has superseded another.
  pub create_session_superseding-IsOnlyActive :
      (db : Database) (r : NewSession) (t : Text)
      (after : Database × Session × SessionCreateOutcome)
      → violates_index db.sessions ≡ false
      → r.trigger_ref ≡ some t
      → create_session_superseding to_string id event_id message_id at clock close_clock event_clock
          db r
        ≡ some after
      → IsOnlyActive t after.1 after.0
  unfolding create_session_superseding
  create_session_superseding-IsOnlyActive db r t after v e h =
      open_after-IsOnlyActive db r t (active_session_for_trigger_locked db t) after v e refl (
        subst
          (λ (o : Option Text).
            open_after to_string id event_id message_id at clock close_clock event_clock db r
              (o >>= λ u. active_session_for_trigger_locked db u)
            ≡ some after)
          e h)
