-- ===== src/Store/Actions/Rate.antt =====
-- The rate of a controller's actions, over every window of a minute.
use openab_control_plane.Prelude.{
  ℕ, ◌≤◌, ◌<◌, ◌+◌, ltb, leb, ◌≡◌, refl, sym, Bool, true, false, ◌&&◌, some, List, [], ◌∷◌, ◌++◌,
  arith, subst, Bool-cases, inl, inr, count_where, count_where-append, count_where-update_where,
  count_where_mono,
}
use openab_control_plane.Text.{Text, text_eq, text_eq_iff}
use openab_control_plane.Store.Database.{Controller, ControllerAction, Database}
use openab_control_plane.Store.Actions.{
  ActionRequest, ControllerActionStart, is_open_action, in_window, find_controller, expire_action,
  new_action, insert_action, begin_controller_action,
}
use openab_control_plane.Store.Actions.Journal.{begin_cases}

-- The actions of a controller that were received in the minute that ends at `t`.
abbrev pub is_in_minute : Text → ℕ → ControllerAction → Bool
is_in_minute c t a =
    text_eq a.controller_id c && (leb a.received_at t && ltb t (a.received_at + 60000))

-- In no minute more actions than the limit.
abbrev pub IsWithinRate : ℕ → Text → Database → Type 0
IsWithinRate limit c db = (t : ℕ) → count_where (is_in_minute c t) db.actions ≤ limit

leb-false : (a b : ℕ) → leb a b ≡ false → b < a
leb-false a b h = ground arith

minute_in_window :
    (r : ActionRequest) (t : ℕ)
    → is_in_minute r.controller_id t (new_action r) ≡ true
    → (x : ControllerAction) → is_in_minute r.controller_id t x ≡ true
    → in_window r x ≡ true
unfolding new_action in_window
minute_in_window r t n x h = ground (arith, n, h)

expire_action_minute :
    (r : ActionRequest) (c : Text) (t : ℕ) (rows : List ControllerAction)
    → count_where (is_in_minute c t) (expire_action r rows) ≡ count_where (is_in_minute c t) rows
unfolding expire_action
expire_action_minute r c t rows =
    count_where-update_where (is_in_minute c t) (is_open_action r.controller_id r.action_id) _ rows
      (λ x. refl)

owner_of_minute :
    (r : ActionRequest) (c : Text) (t : ℕ)
    → is_in_minute c t (new_action r) ≡ true
    → c ≡ r.controller_id
unfolding new_action
owner_of_minute r c t h = elim (Bool-cases (text_eq r.controller_id c)) [
  | inl e ↦ sym ((text_eq_iff r.controller_id c).0 e)
  | inr e ↦ absurd (cc (rw e at h))
]

-- The minute of an admitted action holds no more than the window that was counted, and the action.
admitted_minute :
    (r : ActionRequest) (c : Text) (t limit max : ℕ) (rows : List ControllerAction)
    → c ≡ r.controller_id
    → max ≤ limit
    → leb max (count_where (in_window r) rows) ≡ false
    → is_in_minute c t (new_action r) ≡ true
    → count_where (is_in_minute c t) (rows ++ (new_action r ∷ [])) ≤ limit
admitted_minute r c t limit max rows e small rate m =
    let owned : is_in_minute r.controller_id t (new_action r) ≡ true =
      subst (λ x. is_in_minute x t (new_action r) ≡ true) e m in
    let fewer : count_where (is_in_minute c t) rows ≤ count_where (in_window r) rows =
      subst (λ x. count_where (is_in_minute x t) rows ≤ count_where (in_window r) rows) (sym e)
        (count_where_mono (is_in_minute r.controller_id t) (in_window r) rows
          (minute_in_window r t owned)) in
    rw (count_where-append (is_in_minute c t) rows (new_action r ∷ []), m)
      (omega (arith, fewer, leb-false max (count_where (in_window r) rows) rate, small))

-- If the controller's max_actions_per_minute is at most a limit, and no window of 60 seconds holds
-- more of its actions than the limit, then no window does after any answer of
-- begin_controller_action, whatever the order of the times.
pub begin-IsWithinRate :
    (db db' : Database) (r : ActionRequest) (s : ControllerActionStart) (c : Text) (limit : ℕ)
    → ((k : Controller) → find_controller db c ≡ some k → k.max_actions_per_minute ≤ limit)
    → begin_controller_action db r ≡ some (db', s)
    → IsWithinRate limit c db
    → IsWithinRate limit c db'
unfolding insert_action
begin-IsWithinRate db db' r s c limit small h w t = elim (begin_cases db r db' s h) [
  | inl (e, n) ↦ rw e (w t)
  | inr (inl (e, n)) ↦ rw (e, expire_action_minute r c t db.actions) (w t)
  | inr (inr (k, scopes, d, f, n, none', rate, g, q, u)) ↦
      elim (Bool-cases (is_in_minute c t (new_action r))) [
        | inl m ↦
            let e : c ≡ r.controller_id = owner_of_minute r c t m in
            rw q (
              admitted_minute r c t limit k.max_actions_per_minute db.actions e
                (small k (subst (λ x. find_controller db x ≡ some k) (sym e) f)) rate m)
        | inr m ↦ rw q (
            rw (count_where-append (is_in_minute c t) db.actions (new_action r ∷ []), m)
              (omega (arith, w t)))
      ]
]
