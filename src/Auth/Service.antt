-- ===== src/Auth/Service.antt =====
-- The service as a whole: a request is one call of a method that writes, and a history is a list of
-- calls, each with what its surroundings supply. Reads that no lock protects see `seen`.
pub mod Writes
pub mod Tokens
pub mod Accounts
use multi_tenant.Base.{ℕ, Bool, String, Option, List, [], ◌∷◌}
use multi_tenant.Auth.Types.{AuthDb, AuthEnv, CommandContext, UserStatus}
use multi_tenant.Auth.Effects.{Result, Tx, ◌>>=◌, ◌>>◌, pure, after}
use multi_tenant.Auth.Input.{Text, LoginCommand, RefreshCommand, RevokeCommand}
use multi_tenant.Auth.Sessions.{Crypto, AuthConfig, login, refresh, revoke}
use multi_tenant.Auth.Users.{
  CreateUserInput, UpdateUserInput, create_user, update, update_status, remove,
}
use multi_tenant.Auth.Rbac.{
  CreateRoleInput, UpdateRoleInput, PermissionInput, create_permission, create_role, update_role,
  replace_role_permissions, assign_user_role, remove_user_role,
}

pub data AuthRequest : Type 0 where
  log_in : LoginCommand → AuthRequest
  refresh_session : RefreshCommand → AuthRequest
  revoke_session : RevokeCommand → AuthRequest
  new_user : CreateUserInput → AuthRequest
  change_user : ℕ → UpdateUserInput → AuthRequest
  change_status : ℕ → UserStatus → AuthRequest
  remove_user : ℕ → AuthRequest
  new_permission : PermissionInput → AuthRequest
  new_role : CreateRoleInput → AuthRequest
  change_role : ℕ → UpdateRoleInput → AuthRequest
  replace_permissions : ℕ → List String → AuthRequest
  assign_role : ℕ → ℕ → Option ℕ → AuthRequest
  unassign_role : ℕ → AuthRequest

-- What does not change from call to call: the language's and the libraries' functions, and the
-- configuration.
pub record Platform : Type 0 where
  pub text : Text
  pub crypto : Crypto
  pub config : AuthConfig
  pub hash_password : String → String
  pub is_system_code : String → Bool
  pub bootstrap_id : ℕ

pub record AuthCall : Type 0 where
  pub env : AuthEnv
  pub context : CommandContext
  pub seen : AuthDb
  pub request : AuthRequest

-- Of the response only that there is one.
abbrev pub done : {A : Type 0} → Tx A → Tx Unit
done m = do m; pure tt

module _ (p : Platform) where
  unfoldable pub perform_auth : AuthEnv → CommandContext → AuthDb → AuthRequest → Tx Unit
  perform_auth env context seen (log_in command) =
      done (login p.text p.crypto p.config env seen command)
  perform_auth env context seen (refresh_session command) =
      done (refresh p.text p.crypto p.config env seen command)
  perform_auth env context seen (revoke_session command) =
      done (revoke p.text p.crypto p.config env seen command)
  perform_auth env context seen (new_user input) =
      done (create_user p.hash_password p.bootstrap_id env context seen input)
  perform_auth env context seen (change_user id input) =
      done (update p.hash_password p.bootstrap_id env context seen id input)
  perform_auth env context seen (change_status id status) =
      done (update_status p.hash_password p.bootstrap_id env context seen id status)
  perform_auth env context seen (remove_user id) =
      done (remove p.hash_password p.bootstrap_id env context seen id)
  perform_auth env context seen (new_permission input) =
      done (create_permission p.is_system_code p.bootstrap_id env context seen input)
  perform_auth env context seen (new_role input) =
      done (create_role p.is_system_code p.bootstrap_id env context seen input)
  perform_auth env context seen (change_role id input) =
      done (update_role p.is_system_code p.bootstrap_id env context seen id input)
  perform_auth env context seen (replace_permissions id codes) =
      done (replace_role_permissions p.is_system_code p.bootstrap_id env context seen id codes)
  perform_auth env context seen (assign_role user_id role_id warehouse_id) = done (
      assign_user_role p.is_system_code p.bootstrap_id env context seen user_id role_id
        warehouse_id)
  perform_auth env context seen (unassign_role id) =
      done (remove_user_role p.is_system_code p.bootstrap_id env context seen id)

  unfoldable pub serve_auth : List AuthCall → AuthDb → AuthDb
  serve_auth [] db = db
  serve_auth (c ∷ calls) db =
      serve_auth calls (after (perform_auth c.env c.context c.seen c.request db) db)
