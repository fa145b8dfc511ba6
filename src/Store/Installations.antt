-- ===== src/Store/Installations.antt =====
-- src/store.rs: the registrations of external controllers, with their tokens, grants and scopes.
pub mod Rotation
use openab_control_plane.Prelude.{
  ℕ, ◌+◌, leb, ltb, ◌==◌, Bool, true, false, not, ◌&&◌, ◌||◌, Option, some, none, List, [], ◌∷◌,
  ◌++◌, if◌then◌else◌, anyb, findb, filterb, map, is_some, is_some_and, ◌>>=◌, ℤ, pos, update_where,
  count_where, order_by, length,
}
use openab_control_plane.Text.{Text, codes, text_eq}
use openab_control_plane.Store.Json.{Value, field, no_fields, flag, number, array, object, strings}
use openab_control_plane.Store.Database.{
  Controller, ActionToken, ActionGrant, Binding, ControllerEventAudit, Database,
}
use openab_control_plane.Store.Sessions.Create.{text_leb}
use openab_control_plane.Store.Actions.{eq_ℤ}

pub record NewControllerActionToken : Type 0 where
  pub id : Text
  pub token_hash : Text
  pub pepper_version : ℤ
  pub not_before : ℕ

pub record ControllerInstallationConfig : Type 0 where
  pub enabled : Bool
  pub max_concurrent_sessions : ℕ
  pub max_actions_per_minute : ℕ
  pub actions : List Text
  pub scopes : List Text

abbrev pub is_controller : Text → Controller → Bool
is_controller controller_id c = text_eq c.id controller_id

abbrev pub is_grant : Text → Text → ActionGrant → Bool
is_grant controller_id action_kind g =
    text_eq g.controller_id controller_id && text_eq g.action_kind action_kind

abbrev pub is_binding : Text → Text → Binding → Bool
is_binding controller_id scope b = text_eq b.controller_id controller_id && text_eq b.scope scope

abbrev pub new_controller : Text → ℕ → ℕ → ℕ → Controller
new_controller controller_id max_concurrent_sessions max_actions_per_minute now = record {
  id = controller_id;
  enabled = true;
  max_concurrent_sessions = max_concurrent_sessions;
  max_actions_per_minute = max_actions_per_minute;
  event_endpoint = none;
  event_key_version = none;
  created_at = now;
  updated_at = now;
}

unfoldable pub upsert_controller_installation : ℕ → Database → Text → ℕ → ℕ → Database
upsert_controller_installation now db controller_id max_concurrent_sessions max_actions_per_minute =
    record db {
      controllers =
          if anyb (is_controller controller_id) db.controllers
          then update_where (is_controller controller_id)
              (λ (c : Controller). record c {
                max_concurrent_sessions = max_concurrent_sessions;
                max_actions_per_minute = max_actions_per_minute;
                updated_at = now;
              })
              db.controllers
          else db.controllers
            ++ (new_controller controller_id max_concurrent_sessions max_actions_per_minute now
                ∷ []);
    }

-- `INSERT … ON CONFLICT DO UPDATE` of a grant and of a scope.
unfoldable pub put_grant : Text → Text → Bool → ℕ → List ActionGrant → List ActionGrant
put_grant controller_id action_kind granted now rows =
    if anyb (is_grant controller_id action_kind) rows
    then update_where (is_grant controller_id action_kind)
        (λ (g : ActionGrant). record g { granted = granted; updated_at = now }) rows
    else rows
      ++ (record {
        controller_id = controller_id;
        action_kind = action_kind;
        granted = granted;
        updated_at = now;
      }
          ∷ [])

unfoldable pub put_binding : Text → Text → Bool → ℕ → List Binding → List Binding
put_binding controller_id scope enabled now rows =
    if anyb (is_binding controller_id scope) rows
    then update_where (is_binding controller_id scope)
        (λ (b : Binding). record b { enabled = enabled; updated_at = now }) rows
    else rows
      ++ (record {
        controller_id = controller_id;
        scope = scope;
        enabled = enabled;
        updated_at = now;
      }
          ∷ [])

unfoldable pub set_controller_action_grant : ℕ → Database → Text → Text → Bool → Database
unfolding put_grant
set_controller_action_grant now db controller_id action_kind granted = record db {
  action_grants = put_grant controller_id action_kind granted now db.action_grants;
}

unfoldable pub set_controller_scope_binding : ℕ → Database → Text → Text → Bool → Database
unfolding put_binding
set_controller_scope_binding now db controller_id scope enabled = record db {
  bindings = put_binding controller_id scope enabled now db.bindings;
}

-- Plain inserts, of which a second one for the same key is an error.
unfoldable pub insert_grants : Text → ℕ → List Text → List ActionGrant → Option (List ActionGrant)
insert_grants controller_id now [] rows = some rows
insert_grants controller_id now (action ∷ actions) rows =
    let rest = insert_grants controller_id now actions (
      rows
      ++ (record {
        controller_id = controller_id;
        action_kind = action;
        granted = true;
        updated_at = now;
      }
          ∷ [])) in
    if anyb (is_grant controller_id action) rows then none else rest

unfoldable pub insert_bindings : Text → ℕ → List Text → List Binding → Option (List Binding)
insert_bindings controller_id now [] rows = some rows
insert_bindings controller_id now (scope ∷ scopes) rows =
    let rest = insert_bindings controller_id now scopes (
      rows
      ++ (record { controller_id = controller_id; scope = scope; enabled = true; updated_at = now }
          ∷ [])) in
    if anyb (is_binding controller_id scope) rows then none else rest

-- The unique columns of a controller's tokens, next to the id.
unfoldable pub same_token : ActionToken → ActionToken → Bool
unfolding eq_ℤ
same_token a b =
    text_eq a.controller_id b.controller_id
    && text_eq a.token_hash b.token_hash
    && eq_ℤ a.pepper_version b.pepper_version

unfoldable pub insert_token : ActionToken → List ActionToken → Option (List ActionToken)
insert_token t rows =
    if anyb (λ (r : ActionToken). text_eq r.id t.id || same_token r t) rows
    then none
    else some (rows ++ (t ∷ []))

abbrev pub token_of : Text → NewControllerActionToken → ℕ → ActionToken
token_of controller_id token created_at = record {
  id = token.id;
  controller_id = controller_id;
  token_hash = token.token_hash;
  pepper_version = token.pepper_version;
  not_before = token.not_before;
  expires_at = none;
  revoked_at = none;
  created_at = created_at;
}

-- A registration that is there already is left alone, with the answer false.
unfoldable pub provision_controller_installation :
    ℕ
    → Database
    → Text
    → ℕ
    → ℕ
    → List Text
    → List Text
    → NewControllerActionToken
    → Option (Database × Bool)
unfolding insert_grants insert_bindings insert_token
provision_controller_installation now db controller_id max_concurrent_sessions
      max_actions_per_minute actions scopes token =
    if anyb (is_controller controller_id) db.controllers then some (db, false) else (do
      grants ← insert_grants controller_id now actions db.action_grants
      bindings ← insert_bindings controller_id now scopes db.bindings
      tokens ← insert_token (token_of controller_id token now) db.tokens
      some (
        record db {
          controllers =
              db.controllers
              ++ (new_controller controller_id max_concurrent_sessions max_actions_per_minute now
                  ∷ []);
          action_grants = grants;
          bindings = bindings;
          tokens = tokens;
        },
        true,
      ))

unfoldable pub set_controller_installation_enabled : ℕ → Database → Text → Bool → Database × Bool
set_controller_installation_enabled now db controller_id enabled = (
  record db {
    controllers =
        update_where (is_controller controller_id)
          (λ (c : Controller). record c { enabled = enabled; updated_at = now }) db.controllers;
  },
  count_where (is_controller controller_id) db.controllers == 1,
)

-- A new token of a known id takes its row over, and is not revoked; another row with the same hash is
-- an error.
unfoldable pub put_controller_action_token :
    ℕ → Database → Text → Text → Text → ℤ → ℕ → Option ℕ → Option Database
unfolding same_token
put_controller_action_token now db token_id controller_id token_hash pepper_version not_before
      expires_at =
    let token : ActionToken = record {
      id = token_id;
      controller_id = controller_id;
      token_hash = token_hash;
      pepper_version = pepper_version;
      not_before = not_before;
      expires_at = expires_at;
      revoked_at = none;
      created_at = now;
    } in
    if anyb (λ (r : ActionToken). not (text_eq r.id token_id) && same_token r token) db.tokens
    then none
    else if anyb (λ (r : ActionToken). text_eq r.id token_id) db.tokens
    then some (record db {
      tokens =
          update_where (λ (r : ActionToken). text_eq r.id token_id)
            (λ (r : ActionToken). record token { created_at = r.created_at }) db.tokens;
    })
    else some (record db { tokens = db.tokens ++ (token ∷ []) })

abbrev pub is_expiring : Text → ℕ → ℕ → ActionToken → Bool
is_expiring controller_id expires_at now t =
    text_eq t.controller_id controller_id
    && not (is_some t.revoked_at)
    && leb t.not_before now
    && (not (is_some t.expires_at) || is_some_and t.expires_at (λ e. ltb expires_at e))

unfoldable pub expire_tokens : Text → ℕ → ℕ → List ActionToken → List ActionToken
expire_tokens controller_id expires_at now =
    update_where (is_expiring controller_id expires_at now)
      (λ (t : ActionToken). record t { expires_at = some expires_at })

unfoldable pub expire_controller_action_tokens : Database → Text → ℕ → ℕ → Database × ℕ
expire_controller_action_tokens db controller_id expires_at now = (
  record db { tokens = expire_tokens controller_id expires_at now db.tokens },
  count_where (is_expiring controller_id expires_at now) db.tokens,
)

-- The tokens that are in use get an end, and the new one follows them.
unfoldable pub rotate_controller_action_token :
    Database → Text → NewControllerActionToken → ℕ → Option (Database × Bool)
rotate_controller_action_token db controller_id token old_tokens_expire_at =
    if not (anyb (is_controller controller_id) db.controllers) then some (db, false) else (do
      tokens ←
          insert_token (token_of controller_id token token.not_before)
            (expire_tokens controller_id old_tokens_expire_at token.not_before db.tokens)
      some (record db { tokens = tokens }, true))

unfoldable pub revoke_controller_action_token : Database → Text → Text → ℕ → Database × Bool
revoke_controller_action_token db controller_id token_id revoked_at =
    let selected = λ (t : ActionToken).
      text_eq t.id token_id
      && text_eq t.controller_id controller_id
      && not (is_some t.revoked_at) in
    (
      record db {
        tokens =
            update_where selected (λ (t : ActionToken). record t { revoked_at = some revoked_at })
              db.tokens;
      },
      count_where selected db.tokens == 1,
    )

abbrev pub is_active_at : ℕ → ActionToken → Bool
is_active_at now t =
    not (is_some t.revoked_at)
    && leb t.not_before now
    && not (is_some_and t.expires_at (λ e. leb e now))

-- The whole rows, of which the source takes the id, the controller, the hash and the pepper version.
unfoldable pub active_controller_action_tokens : Database → ℕ → List ActionToken
active_controller_action_tokens db now =
    order_by (λ (a b : ActionToken). text_leb a.id b.id) (filterb (is_active_at now) db.tokens)

unfoldable pub read_config : Database → Text → Option ControllerInstallationConfig
read_config db controller_id = do
  c ← findb (is_controller controller_id) db.controllers
  some (record {
    enabled = c.enabled;
    max_concurrent_sessions = c.max_concurrent_sessions;
    max_actions_per_minute = c.max_actions_per_minute;
    actions = order_by text_leb (
        map (λ (g : ActionGrant). g.action_kind)
          (filterb (λ (g : ActionGrant). text_eq g.controller_id controller_id && g.granted)
            db.action_grants));
    scopes = order_by text_leb (
        map (λ (b : Binding). b.scope)
          (filterb (λ (b : Binding). text_eq b.controller_id controller_id && b.enabled)
            db.bindings));
  })

unfoldable pub patch_controller : Text → ℕ → (Controller → Controller) → Database → Database
patch_controller controller_id now change db = record db {
  controllers =
      update_where (is_controller controller_id)
        (λ (c : Controller). record (change c) { updated_at = now }) db.controllers;
}

unfoldable pub patch_enabled : Text → ℕ → Option Bool → Database → Database
unfolding patch_controller
patch_enabled controller_id now none db = db
patch_enabled controller_id now (some enabled) db =
    patch_controller controller_id now (λ c. record c { enabled = enabled }) db

unfoldable pub patch_max_sessions : Text → ℕ → Option ℕ → Database → Database
unfolding patch_controller
patch_max_sessions controller_id now none db = db
patch_max_sessions controller_id now (some limit) db =
    patch_controller controller_id now (λ c. record c { max_concurrent_sessions = limit }) db

unfoldable pub patch_max_actions : Text → ℕ → Option ℕ → Database → Database
unfolding patch_controller
patch_max_actions controller_id now none db = db
patch_max_actions controller_id now (some limit) db =
    patch_controller controller_id now (λ c. record c { max_actions_per_minute = limit }) db

unfoldable pub put_grants : Text → ℕ → List Text → List ActionGrant → List ActionGrant
unfolding put_grant
put_grants controller_id now [] rows = rows
put_grants controller_id now (action ∷ actions) rows =
    put_grants controller_id now actions (put_grant controller_id action true now rows)

unfoldable pub patch_actions : Text → ℕ → Option (List Text) → Database → Database
unfolding put_grants
patch_actions controller_id now none db = db
patch_actions controller_id now (some actions) db = record db {
  action_grants = put_grants controller_id now actions (
      update_where (λ (g : ActionGrant). text_eq g.controller_id controller_id)
        (λ (g : ActionGrant). record g { granted = false; updated_at = now }) db.action_grants);
}

unfoldable pub put_bindings : Text → ℕ → List Text → List Binding → List Binding
unfolding put_binding
put_bindings controller_id now [] rows = rows
put_bindings controller_id now (scope ∷ scopes) rows =
    put_bindings controller_id now scopes (put_binding controller_id scope true now rows)

unfoldable pub patch_scopes : Text → ℕ → Option (List Text) → Database → Database
unfolding put_bindings
patch_scopes controller_id now none db = db
patch_scopes controller_id now (some scopes) db = record db {
  bindings = put_bindings controller_id now scopes (
      update_where (λ (b : Binding). text_eq b.controller_id controller_id)
        (λ (b : Binding). record b { enabled = false; updated_at = now }) db.bindings);
}

abbrev pub config_value : ControllerInstallationConfig → Value
config_value c = object (
    field (codes "enabled") (flag c.enabled) (
      field (codes "max_concurrent_sessions") (number (pos c.max_concurrent_sessions)) (
        field (codes "max_actions_per_minute") (number (pos c.max_actions_per_minute)) (
          field (codes "actions") (array (strings c.actions))
            (field (codes "scopes") (array (strings c.scopes)) no_fields)))))

-- The changes of a PATCH that are given, and the audit of the document before and after. The first
-- `none` is an error, the second an unknown registration.
unfoldable pub patch_controller_installation :
    (Value → Text)
    → Text
    → ℕ
    → Database
    → Text
    → Option Bool
    → Option ℕ
    → Option ℕ
    → Option (List Text)
    → Option (List Text)
    → Option (Database × Option ControllerInstallationConfig)
unfolding read_config patch_enabled patch_max_sessions patch_max_actions patch_actions patch_scopes
patch_controller_installation to_string event_id now db controller_id enabled max_sessions
      max_actions actions scopes =
    let patched = patch_scopes controller_id now scopes (
      patch_actions controller_id now actions (
        patch_max_actions controller_id now max_actions (
          patch_max_sessions controller_id now max_sessions
            (patch_enabled controller_id now enabled db)))) in
    elim (read_config db controller_id) [
      | none ↦ some (db, none)
      | some before ↦ do
        after ← read_config patched controller_id
        some (
          record patched {
            event_audit =
                patched.event_audit
                ++ (record {
                  id = length patched.event_audit + 1;
                  controller_id = controller_id;
                  event_id = event_id;
                  kind = codes "installation_patched";
                  detail = to_string (
                      object (
                        field (codes "before") (config_value before)
                          (field (codes "after") (config_value after) no_fields)));
                  created_at = now;
                }
                    ∷ []);
          },
          some after,
        )
    ]
