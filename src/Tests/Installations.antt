-- ===== src/Tests/Installations.antt =====
-- The registrations of src/store.rs: a token that is rotated, and a registration that is changed.
use openab_control_plane.Prelude.{
  ◌≡◌, refl, true, false, [], ◌∷◌, ◌++◌, Option, some, none, pos, arith, All, map,
}
use openab_control_plane.Text.{codes, text_ops}
use openab_control_plane.Store.Json.{Value}
use openab_control_plane.Store.Database.{ActionToken, Database}
use openab_control_plane.Store.Actions.{eq_ℤ}
use openab_control_plane.Store.Installations.{
  NewControllerActionToken, ControllerInstallationConfig, rotate_controller_action_token,
  active_controller_action_tokens, expire_tokens, insert_token, same_token, token_of,
  patch_controller_installation, patch_enabled, patch_max_sessions, patch_max_actions,
  patch_actions, patch_scopes, patch_controller, put_grants, put_grant, read_config,
}
use openab_control_plane.Store.Sessions.Create.{text_leb}
use openab_control_plane.Store.Installations.Rotation.{
  IsNewest, rotate_controller_action_token-IsNewest,
}
use openab_control_plane.Tests.Actions.{empty}

abbrev new_token : NewControllerActionToken
new_token = record {
  id = codes "n";
  token_hash = codes "g";
  pepper_version = pos 1;
  not_before = 10;
}

abbrev rotated : Database
rotated = record empty {
  tokens = expire_tokens (codes "c") 20 10 empty.tokens ++ (token_of (codes "c") new_token 10 ∷ []);
}

rotates : rotate_controller_action_token empty (codes "c") new_token 20 ≡ some (rotated, true)
unfolding rotate_controller_action_token insert_token expire_tokens same_token eq_ℤ text_ops
rotates = refl

rotation_example : All (IsNewest (codes "c") new_token) (active_controller_action_tokens rotated 20)
rotation_example =
    rotate_controller_action_token-IsNewest empty rotated (codes "c") new_token 20 20 rotates
      (omega arith)

both_until_then :
    map (λ (t : ActionToken). t.id) (active_controller_action_tokens rotated 19)
    ≡ codes "k" ∷ codes "n" ∷ []
unfolding active_controller_action_tokens expire_tokens text_ops text_leb
both_until_then = refl

only_new_then :
    map (λ (t : ActionToken). t.id) (active_controller_action_tokens rotated 20) ≡ codes "n" ∷ []
unfolding active_controller_action_tokens expire_tokens text_ops
only_new_then = refl

patched_config :
    Option (Database × Option ControllerInstallationConfig) → Option ControllerInstallationConfig
patched_config none = none
patched_config (some p) = p.1

patches :
    patched_config (
      patch_controller_installation
        (λ (v : Value). [])
        (codes "e")
        7
        empty
        (codes "c")
        (some false)
        none
        (some 3)
        (some (codes "post" ∷ []))
        none)
    ≡ some (record {
      enabled = false;
      max_concurrent_sessions = 5;
      max_actions_per_minute = 3;
      actions = codes "post" ∷ [];
      scopes = codes "s" ∷ [];
    })
unfolding patched_config patch_controller_installation patch_enabled patch_max_sessions
    patch_max_actions patch_actions patch_scopes patch_controller put_grants put_grant read_config
    text_ops
patches = refl
