-- ===== src/Auth/Users.antt =====
-- User administration: apps/auth-iam-service/src/users/users.service.ts, on the input that the
-- `validate…Body` methods return. A check before the transaction sees another database, `seen`.
pub mod Locked
pub mod Admins
use multi_tenant.Base.{
  ℕ, String, Bool, true, false, not, ◌&&◌, ◌||◌, Option, none, some, List, [], ◌∷◌, ◌==◌, find, any,
  update_where, str_eq, is_some, if◌then◌else◌,
}
use multi_tenant.Json.{Json, Items, obj, arr, nil, cons, end, field, uuid, str}
use multi_tenant.Auth.Types.{
  AuthUser, RefreshToken, UserStatus, UserType, system_admin, general_user, active, inactive,
  locked, AuthDb, CommandContext, AuthEnv, is_active, is_system_admin,
}
use multi_tenant.Auth.Effects.{
  AuthError, tenant_required, user_not_found, user_email_conflict, admin_scope_mismatch,
  internal_error, Result, Tx, ◌>>=◌, ◌>>◌, pure, throw_if, or_throw, gets, modify,
}
use multi_tenant.Auth.Store.{
  same_option, find_user, find_tenant_user, find_by_email, update_tokens, record_event, auth_event,
}

pub record CreateUserInput : Type 0 where
  pub email : String
  pub display_name : String
  pub password : String
  pub user_type : UserType
  pub status : UserStatus

pub record UpdateUserInput : Type 0 where
  pub email : Option String
  pub display_name : Option String

abbrev pub user_type_name : UserType → String
user_type_name system_admin = "system_admin"
user_type_name general_user = "general_user"

abbrev pub status_name : UserStatus → String
status_name active = "active"
status_name inactive = "inactive"
status_name locked = "locked"

-- The user is an active system administrator, with no tenant: `findSystemAdmin` on a row.
abbrev pub is_admin_row : Option AuthUser → Bool
is_admin_row none = false
is_admin_row (some u) =
    is_system_admin u.user_type && (not (is_some u.tenant_id) && is_active u.status)

unfoldable pub find_system_admin : AuthDb → Option ℕ → Bool
find_system_admin db none = false
find_system_admin db (some user_id) = is_admin_row (find_user user_id db)

abbrev pub is_id : ℕ → Option ℕ → Bool
is_id id none = false
is_id id (some i) = i == id

-- `findBootstrapSystemAdmin`, of the configured id
unfoldable pub find_bootstrap_system_admin : ℕ → AuthDb → Option ℕ → Bool
find_bootstrap_system_admin bootstrap_id db user_id =
    is_id bootstrap_id user_id && find_system_admin db user_id

-- The key of the tenant and the email, which a NULL does not enter.
abbrev pub clashes : Option ℕ → String → AuthUser → Bool
clashes none email u = false
clashes (some tenant_id) email u = same_option u.tenant_id (some tenant_id) && str_eq u.email email

unfoldable pub insert_user : AuthUser → Tx Unit
insert_user user = do
  taken ← gets (λ db. any (clashes user.tenant_id user.email) db.users)
  throw_if taken internal_error
  modify (λ db. record db { users = user ∷ db.users })

abbrev pub email_of : Option String → String → String
email_of none email = email
email_of (some e) email = e

-- The row with the columns of the input set.
abbrev pub updated_user : UpdateUserInput → AuthUser → AuthUser
updated_user input u = record u {
  email = email_of input.email u.email;
  display_name = email_of input.display_name u.display_name;
}

abbrev pub clashes_other : AuthUser → AuthUser → Bool
clashes_other user u = not (u.id == user.id) && clashes user.tenant_id user.email u

-- `authUser.update` of an id, which has to be there
unfoldable pub update_user : ℕ → UpdateUserInput → Tx AuthUser
update_user user_id input = do
  found ← gets (find_user user_id)
  user ← or_throw found internal_error
  taken ← gets (λ db. any (clashes_other (updated_user input user)) db.users)
  throw_if taken internal_error
  modify (λ db. record db {
    users = update_where (λ u. u.id == user_id) (updated_user input) db.users;
  })
  pure (updated_user input user)

abbrev pub user_row : AuthEnv → Option ℕ → String → CreateUserInput → UserType → AuthUser
user_row env tenant_id password_hash input user_type = record {
  id = env.row_id;
  tenant_id = tenant_id;
  email = input.email;
  display_name = input.display_name;
  password_hash = password_hash;
  user_type = user_type;
  status = input.status;
}

abbrev pub created_data : AuthUser → Json
created_data u = obj (
    field "userId" (uuid u.id) (
      field "userType" (str (user_type_name u.user_type))
        (field "status" (str (status_name u.status)) end)))

abbrev pub key_if : Option String → String → Items → Items
key_if none name rest = rest
key_if (some x) name rest = cons (str name) rest

-- `Object.keys(input)`
abbrev pub changed_fields : UpdateUserInput → Json
changed_fields input =
    arr (key_if input.email "email" (key_if input.display_name "displayName" nil))

-- The email belongs to another user than the given one.
abbrev pub is_other : ℕ → Option AuthUser → Bool
is_other user_id none = false
is_other user_id (some u) = not (u.id == user_id)

-- `tenantId: null`, the email and the type of a system administrator
abbrev pub find_admin_email : String → AuthDb → Option AuthUser
find_admin_email email db =
    find (λ u. not (is_some u.tenant_id) && (str_eq u.email email && is_system_admin u.user_type))
      db.users

-- The live refresh tokens of a user of a tenant.
abbrev pub is_live_of : ℕ → ℕ → RefreshToken → Bool
is_live_of tenant_id user_id t =
    same_option t.tenant_id (some tenant_id) && (t.user_id == user_id && not (is_some t.revoked_at))

abbrev pub with_status : UserStatus → AuthUser → AuthUser
with_status status u = record u { status = status }

module _ (hash_password : String → String) (bootstrap_id : ℕ) (env : AuthEnv)
    (context : CommandContext) (seen : AuthDb) where
  unfoldable pub create_system_admin : CreateUserInput → Tx AuthUser
  create_system_admin input = do
    throw_if (is_some context.tenant_id) admin_scope_mismatch
    throw_if (not (find_bootstrap_system_admin bootstrap_id seen context.user_id))
        admin_scope_mismatch
    throw_if (is_some (find_admin_email input.email seen)) user_email_conflict
    let user = user_row env none (hash_password input.password) input system_admin
    insert_user user
    pure user

  unfoldable pub create_tenant_user : CreateUserInput → Tx AuthUser
  create_tenant_user input = do
    tenant_id ← or_throw context.tenant_id tenant_required
    throw_if (is_some (find_by_email tenant_id input.email seen)) user_email_conflict
    let user = user_row env (some tenant_id) (hash_password input.password) input input.user_type
    insert_user user
    record_event env
        (auth_event tenant_id context "auth.user.created" "auth_user" user.id (created_data user))
    pure user

  unfoldable pub create_user : CreateUserInput → Tx AuthUser
  create_user input =
      if is_system_admin input.user_type
      then create_system_admin input
      else create_tenant_user input

  -- The check of an email that is to change, on the row that has it.
  abbrev pub email_taken : ℕ → Option String → (String → Option AuthUser) → Bool
  email_taken user_id none look = false
  email_taken user_id (some email) look = is_other user_id (look email)

  unfoldable pub update_own_system_admin : ℕ → UpdateUserInput → Tx AuthUser
  update_own_system_admin user_id input = do
    throw_if (not (is_id user_id context.user_id)) tenant_required
    throw_if (not (find_system_admin seen (some user_id))) tenant_required
    throw_if (email_taken user_id input.email (λ e. find_admin_email e seen)) user_email_conflict
    update_user user_id input

  unfoldable pub update_tenant_user : ℕ → ℕ → UpdateUserInput → Tx AuthUser
  update_tenant_user tenant_id user_id input = do
    throw_if (not (is_some (find_tenant_user tenant_id user_id seen))) user_not_found
    throw_if (email_taken user_id input.email (λ e. find_by_email tenant_id e seen))
        user_email_conflict
    user ← update_user user_id input
    record_event env (
        auth_event tenant_id context "auth.user.updated" "auth_user" user_id
          (obj (field "userId" (uuid user_id) (field "changedFields" (changed_fields input) end))))
    pure user

  unfoldable pub update_by_tenant : Option ℕ → ℕ → UpdateUserInput → Tx AuthUser
  update_by_tenant none user_id input = update_own_system_admin user_id input
  update_by_tenant (some tenant_id) user_id input = update_tenant_user tenant_id user_id input

  unfoldable pub update : ℕ → UpdateUserInput → Tx AuthUser
  update user_id input = update_by_tenant context.tenant_id user_id input

  unfoldable pub revoke_unless_active : ℕ → ℕ → UserStatus → Tx Unit
  revoke_unless_active tenant_id user_id status =
      if is_active status
      then pure tt
      else update_tokens (is_live_of tenant_id user_id)
          (λ t. record t { revoked_at = some env.now })

  unfoldable pub update_status : ℕ → UserStatus → Tx AuthUser
  update_status user_id status = do
    tenant_id ← or_throw context.tenant_id tenant_required
    found ← gets (find_tenant_user tenant_id user_id)
    existing ← or_throw found user_not_found
    modify (λ db. record db {
      users = update_where (λ u. u.id == user_id) (with_status status) db.users;
    })
    revoke_unless_active tenant_id user_id status
    record_event env (
        auth_event tenant_id context "auth.user.statusChanged" "auth_user" user_id
          (obj (field "userId" (uuid user_id) (field "status" (str (status_name status)) end))))
    pure (with_status status existing)

  unfoldable pub remove : ℕ → Tx AuthUser
  remove user_id = update_status user_id inactive
