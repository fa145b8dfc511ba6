-- ===== src/Store/Installations/Rotation.antt =====
-- src/store.rs, `rotate_controller_action_token`: what a rotation leaves of the tokens in use.
use openab_control_plane.Prelude.{
  ℕ, ◌≤◌, ◌<◌, Bool-cases, ◌≡◌, true, false, some, List, [], ◌∷◌, ◌++◌, ◌⊎◌, inl, inr, arith, All,
  filterb, update_where, All-update_where, All-order_by, All-append, Bool, ap, subst, anyb,
  some_inj, ◌||◌, is_some,
}
use openab_control_plane.Text.{Text, text_eq, text_eq_refl}
use openab_control_plane.Store.Sessions.Create.{text_leb}
use openab_control_plane.Store.Database.{ActionToken, Database}
use openab_control_plane.Store.Installations.{
  NewControllerActionToken, is_active_at, is_expiring, expire_tokens,
  rotate_controller_action_token, active_controller_action_tokens, token_of, insert_token,
  is_controller, same_token,
}

-- A token of the controller that still authenticates is the new one, or begins after it.
abbrev pub IsNewest : Text → NewControllerActionToken → ActionToken → Type 0
IsNewest controller_id token t =
    text_eq t.controller_id controller_id ≡ true
    → (text_eq t.id token.id ≡ true) ⊎ (token.not_before < t.not_before)

abbrev IsReplaced : Text → NewControllerActionToken → ℕ → ActionToken → Type 0
IsReplaced controller_id token now t = is_active_at now t ≡ true → IsNewest controller_id token t

expired-IsReplaced :
    (controller_id : Text) (token : NewControllerActionToken) (expires_at now : ℕ) (t : ActionToken)
    → expires_at ≤ now
    → IsReplaced controller_id token now (record t { expires_at = some expires_at })
expired-IsReplaced controller_id token expires_at now t late active own = ground arith

kept-IsReplaced :
    (controller_id : Text) (token : NewControllerActionToken) (expires_at now : ℕ) (t : ActionToken)
    → expires_at ≤ now
    → is_expiring controller_id expires_at token.not_before t ≡ false
    → IsReplaced controller_id token now t
kept-IsReplaced controller_id token expires_at now t late kept active own = ground arith

active-IsNewest :
    (controller_id : Text) (token : NewControllerActionToken) (now : ℕ) (rows : List ActionToken)
    → All (IsReplaced controller_id token now) rows
    → All (IsNewest controller_id token) (filterb (is_active_at now) rows)
active-IsNewest controller_id token now [] h = tt
active-IsNewest controller_id token now (t ∷ rows) h = elim (Bool-cases (is_active_at now t)) [
  | inl e ↦ rw e (h.0 e, active-IsNewest controller_id token now rows h.1)
  | inr e ↦ rw e (active-IsNewest controller_id token now rows h.1)
]

all_unit : (rows : List ActionToken) → All {0, 0} (λ (t : ActionToken). Unit) rows
all_unit [] = tt
all_unit (t ∷ rows) = (tt, all_unit rows)

inserted-IsReplaced :
    (controller_id : Text) (token : NewControllerActionToken) (expires_at now : ℕ)
    (rows : List ActionToken)
    → expires_at ≤ now
    → All (IsReplaced controller_id token now) (
        expire_tokens controller_id expires_at token.not_before rows
        ++ (token_of controller_id token token.not_before ∷ []))
unfolding expire_tokens
inserted-IsReplaced controller_id token expires_at now rows late =
    All-append (IsReplaced controller_id token now)
      (update_where (is_expiring controller_id expires_at token.not_before)
        (λ (t : ActionToken). record t { expires_at = some expires_at }) rows)
      (token_of controller_id token token.not_before ∷ [])
      (All-update_where (λ (t : ActionToken). Unit) (IsReplaced controller_id token now)
        (is_expiring controller_id expires_at token.not_before)
        (λ (t : ActionToken). record t { expires_at = some expires_at })
        (λ t u e. expired-IsReplaced controller_id token expires_at now t late)
        (λ t u e. kept-IsReplaced controller_id token expires_at now t late e) rows (all_unit rows))
      ((λ active own. inl (text_eq_refl token.id)), tt)

-- Where rotate_controller_action_token answers that it has rotated the token, every token of the
-- controller that authenticates from the end of the old tokens on is the new token, or begins later
-- than the new one.
pub rotate_controller_action_token-IsNewest :
    (db db' : Database) (controller_id : Text) (token : NewControllerActionToken)
    (old_tokens_expire_at now : ℕ)
    → rotate_controller_action_token db controller_id token old_tokens_expire_at ≡ some (db', true)
    → old_tokens_expire_at ≤ now
    → All (IsNewest controller_id token) (active_controller_action_tokens db' now)
unfolding rotate_controller_action_token active_controller_action_tokens insert_token
rotate_controller_action_token-IsNewest db db' controller_id token old_tokens_expire_at now h late =
    let created = token_of controller_id token token.not_before in
    let expired = expire_tokens controller_id old_tokens_expire_at token.not_before db.tokens in
    elim (Bool-cases (anyb (is_controller controller_id) db.controllers)) [
      | inr e ↦
          let said : false ≡ true =
            ap (λ (p : Database × Bool). p.1) (some_inj (db, false) (db', true) (rw e at h)) in
          cc
      | inl e ↦
          elim (Bool-cases
            (anyb (λ (r : ActionToken). text_eq r.id created.id || same_token r created) expired)) [
              | inl taken ↦ let said : false ≡ true = ap is_some (rw (e, taken) at h) in cc
              | inr new ↦
                  let here : expired ++ (created ∷ []) ≡ db'.tokens =
                    ap (λ (p : Database × Bool). p.0.tokens)
                      (some_inj (record db { tokens = expired ++ (created ∷ []) }, true) (db', true)
                        (rw (e, new) at h)) in
                  All-order_by (IsNewest controller_id token)
                    (λ (a b : ActionToken). text_leb a.id b.id)
                    (filterb (is_active_at now) db'.tokens)
                    (active-IsNewest controller_id token now db'.tokens (
                      subst (All (IsReplaced controller_id token now)) here (
                        inserted-IsReplaced controller_id token old_tokens_expire_at now db.tokens
                          late)))
            ]
    ]
