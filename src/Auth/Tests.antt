-- ===== src/Auth/Tests.antt =====
-- Runs of the identity service on a small database, and the theorems applied to them.
use multi_tenant.Base.{
  ℕ, String, true, ◌≡◌, ◌≢◌, ◌⊎◌, ◌↔◌, inl, refl, none, some, [], ◌∷◌, arith, str_eq,
}
use multi_tenant.Auth.Types.{
  AuthUser, RefreshToken, Role, AuthDb, AuthEnv, CommandContext, active, inactive, general_user,
}
use multi_tenant.Effects.{◌>>=◌, pure, throw_if, or_throw, gets, modify, lift, after}
use multi_tenant.Auth.Effects.{Result, ok}
use multi_tenant.Auth.Input.{RefreshCommand, validate_refresh, validate_tenant, checked}
use multi_tenant.Auth.Store.{create_token, update_tokens, record_event}
use multi_tenant.Auth.Sessions.{TokenPair, refresh}
use multi_tenant.Auth.Sessions.Once.{refresh_once}
use multi_tenant.Auth.Users.{update_status, revoke_unless_active}
use multi_tenant.Auth.Users.Locked.{refresh-shut_out, check-shut_out}
use multi_tenant.Auth.Users.Admins.{admin_ids, serve_auth-admin_ids}
use multi_tenant.Auth.Access.{check}
use multi_tenant.Auth.Access.Allowed.{IsAdmin, IsAllowed, check-ok_iff}
use multi_tenant.Auth.Rbac.{assign_user_role}
use multi_tenant.Auth.Rbac.Linked.{AreLinked, serve_auth-AreLinked}
use multi_tenant.Auth.Service.{Platform, AuthCall, serve_auth, perform_auth, assign_role}

abbrev platform : Platform
platform = record {
  text = record { trim = λ s. s; lower = λ s. s; read_uuid = λ s. some 1 };
  crypto = record {
    verify = str_eq;
    hash_refresh_token = λ s. s;
    sign_access_token = λ user tenant type. ok "access";
  };
  config = record { refresh_token_ttl_seconds = 60 };
  hash_password = λ s. s;
  is_system_code = str_eq "system.all";
  bootstrap_id = 99;
}

abbrev pub user : ℕ → AuthUser
user id = record {
  id = id;
  tenant_id = some 1;
  email = "a@example.com";
  display_name = "A";
  password_hash = "secret";
  user_type = general_user;
  status = active;
}

abbrev token : RefreshToken
token = record {
  id = 21;
  tenant_id = some 1;
  user_id = 10;
  token_hash = "old";
  expires_at = 500;
  revoked_at = none;
  replaced_by = none;
}

abbrev token_of_other : RefreshToken
token_of_other = record {
  id = 22;
  tenant_id = some 1;
  user_id = 11;
  token_hash = "other";
  expires_at = 500;
  revoked_at = none;
  replaced_by = none;
}

abbrev role : Role
role = record { id = 31; tenant_id = 1; code = "clerk"; name = "Clerk"; description = none }

abbrev pub db : AuthDb
db = record {
  users = user 10 ∷ user 11 ∷ [];
  tokens = token ∷ token_of_other ∷ [];
  roles = role ∷ [];
  permissions = record { id = 41; code = "wms.read"; description = none } ∷ [];
  role_permissions = record { role_id = 31; permission_id = 41 } ∷ [];
  user_roles = record { id = 51; user_id = 10; role_id = 31; warehouse_id = none } ∷ [];
  outbox = [];
}

abbrev env : ℕ → String → AuthEnv
env row_id opaque = record {
  now = 100;
  row_id = row_id;
  outbox_id = row_id;
  event_id = row_id;
  opaque_token = opaque;
}

abbrev context : CommandContext
context = record {
  tenant_id = some 1;
  tenant_is_lower = true;
  user_id = some 11;
  request_id = none;
}

abbrev command : String → RefreshCommand
command s = record { refresh_token = some s; tenant_id = none; header_tenant_id = none }

abbrev assign_call : AuthCall
assign_call = record {
  env = env 61 "x";
  context = context;
  seen = db;
  request = assign_role 11 31 none;
}

abbrev refresh_db : AuthEnv → String → AuthDb → Result (TokenPair × AuthDb)
refresh_db e s d = refresh platform.text platform.crypto platform.config e d (command s) d

abbrev pair : String → TokenPair
pair s = record { access_token = "access"; refresh_token = s; refresh_expires_in = 60 }

abbrev refreshed : AuthDb
refreshed = after (refresh_db (env 71 "new") "old" db) db

refresh_once_example : ¬ (
    refresh_db (env 72 "newer") "old" (serve_auth platform (assign_call ∷ []) refreshed)
    ≡ ok (pair "newer", refreshed))
unfolding refresh validate_refresh validate_tenant checked ◌>>=◌ lift or_throw throw_if create_token
    update_tokens gets modify pure
refresh_once_example =
    refresh_once platform (env 71 "new") (env 72 "newer") (command "old") (command "old")
      (assign_call ∷ []) db refreshed refreshed (pair "new") (pair "newer") refl refl

abbrev stopped_user : AuthUser
stopped_user = record (user 10) { status = inactive }

abbrev stopped : AuthDb
stopped = after (update_status platform.hash_password 99 (env 73 "") context db 10 inactive db) db

abbrev later : AuthDb
later = serve_auth platform (assign_call ∷ []) stopped

refresh-shut_out_example : token_of_other.user_id ≢ 10
unfolding refresh validate_refresh validate_tenant checked ◌>>=◌ lift or_throw throw_if create_token
    update_tokens gets modify pure update_status revoke_unless_active record_event serve_auth
    perform_auth assign_user_role
refresh-shut_out_example =
    refresh-shut_out platform (env 73 "") context db 10 inactive (assign_call ∷ []) db stopped
      stopped_user refl refl ((refl, omega arith), tt) (env 74 "new") (command "other")
      token_of_other (pair "new") (after (refresh_db (env 74 "new") "other" later) later) refl refl

check-shut_out_example :
    ¬ (check platform.is_system_code later (some 1) 10 "wms.read" none ≡ ok true)
unfolding ◌>>=◌ lift or_throw throw_if update_tokens gets modify pure update_status
    revoke_unless_active record_event
check-shut_out_example =
    check-shut_out platform (env 73 "") context db 10 inactive (assign_call ∷ []) db stopped
      stopped_user refl refl ((refl, omega arith), tt) (some 1) "wms.read" none true

serve_auth-admin_ids_example :
    admin_ids (serve_auth platform (assign_call ∷ []) db).users ≡ admin_ids db.users
serve_auth-admin_ids_example = serve_auth-admin_ids platform (assign_call ∷ []) db (refl, tt)

check-ok_iff_example : (check platform.is_system_code db (some 1) 10 "wms.read" none ≡ ok true) ↔ (
    IsAdmin db 10
    ⊎ ((t : ℕ) × (some 1 ≡ some t) × IsAllowed platform.is_system_code db 10 "wms.read" none t))
check-ok_iff_example = check-ok_iff platform.is_system_code db (some 1) 10 "wms.read" none

serve_auth-AreLinked_example : AreLinked (serve_auth platform (assign_call ∷ []) db)
serve_auth-AreLinked_example =
    serve_auth-AreLinked platform (assign_call ∷ []) db
      (record { tenant = 1; user = inl (refl, refl); role = inl (refl, refl) }, tt)
