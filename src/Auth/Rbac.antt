-- ===== src/Auth/Rbac.antt =====
-- Roles, permissions and assignments: apps/auth-iam-service/src/permissions/rbac.service.ts and
-- `create` of permissions.service.ts, on validated input. `seen` is the database that the reads
-- outside the transaction saw.
pub mod Linked
use multi_tenant.Base.{
  ℕ, String, Bool, true, false, not, ◌&&◌, ◌||◌, Option, none, some, List, [], ◌∷◌, ◌++◌, ◌==◌,
  find, any, map, select, update_where, str_eq, is_some, if◌then◌else◌,
}
use multi_tenant.Json.{Json, Items, obj, arr, nil, cons, end, field, uuid, uuid_or_null, str}
use multi_tenant.Auth.Types.{
  AuthUser, Role, Permission, RolePermission, UserRole, AuthDb, CommandContext, AuthEnv, is_active,
  is_system_admin,
}
use multi_tenant.Auth.Effects.{
  AuthError, validation_failed, tenant_required, user_not_found, role_not_found, role_code_conflict,
  permission_code_conflict, user_role_conflict, user_role_not_found, admin_scope_mismatch,
  internal_error, Result, Tx, ◌>>=◌, ◌>>◌, pure, throw_if, or_throw, gets, modify,
}
use multi_tenant.Auth.Store.{
  same_option, find_role, find_tenant_user, find_tenant_role, find_role_code, find_permission_code,
  record_event, auth_event,
}
use multi_tenant.Auth.Users.{is_id, find_system_admin}

pub record CreateRoleInput : Type 0 where
  pub code : String
  pub name : String
  pub description : Option String

-- Each column is set where the input has it; a description may be set to NULL.
pub record UpdateRoleInput : Type 0 where
  pub code : Option String
  pub name : Option String
  pub description : Option (Option String)

pub record PermissionInput : Type 0 where
  pub code : String
  pub description : Option String

-- `Object.keys(input)`, which `validateRoleBody` fills in this order
abbrev pub key_of {ℓ} : {A : Type ℓ} → Option A → String → Items → Items
key_of none name rest = rest
key_of (some x) name rest = cons (str name) rest

abbrev pub set_or {ℓ} : {A : Type ℓ} → Option A → A → A
set_or none old = old
set_or (some a) old = a

abbrev pub role_fields : UpdateRoleInput → Json
role_fields input = arr (
    key_of input.code "code"
      (key_of input.name "name" (key_of input.description "description" nil)))

abbrev pub updated_role : UpdateRoleInput → Role → Role
updated_role input r = record r {
  code = set_or input.code r.code;
  name = set_or input.name r.name;
  description = set_or input.description r.description;
}

abbrev pub strings : List String → Items
strings [] = nil
strings (s ∷ ss) = cons (str s) (strings ss)

abbrev pub is_code_of : List String → Permission → Bool
is_code_of codes p = any (λ c. str_eq p.code c) codes

-- Some code has no permission.
abbrev pub is_missing : AuthDb → String → Bool
is_missing db code = not (any (λ (p : Permission). str_eq p.code code) db.permissions)

abbrev pub same_assignment : ℕ → ℕ → Option ℕ → UserRole → Bool
same_assignment user_id role_id warehouse_id ur =
    ur.user_id == user_id && (ur.role_id == role_id && same_option ur.warehouse_id warehouse_id)

abbrev pub is_other_role : ℕ → Option Role → Bool
is_other_role role_id none = false
is_other_role role_id (some r) = not (r.id == role_id)

-- `assertTenantRoleCode` and the conflict, for a code that is given
abbrev pub is_reserved_code : Option String → Bool
is_reserved_code none = false
is_reserved_code (some code) = str_eq code "system_admin"

abbrev pub code_taken : AuthDb → ℕ → ℕ → Option String → Bool
code_taken db tenant_id role_id none = false
code_taken db tenant_id role_id (some code) =
    is_other_role role_id (find_role_code tenant_id code db)

-- The rows that another role holds under the key of the tenant and the code.
abbrev pub clashes_role : Role → Role → Bool
clashes_role role r =
    not (r.id == role.id) && (r.tenant_id == role.tenant_id && str_eq r.code role.code)

pub data ActorLevel : Type 0 where
  super_admin system_admin tenant_admin tenant_user : ActorLevel

abbrev pub is_tenant_level : ActorLevel → Bool
is_tenant_level super_admin = false
is_tenant_level system_admin = false
is_tenant_level tenant_admin = true
is_tenant_level tenant_user = true

-- The user is an active general user of the tenant with an assignment to its `tenant_admin`.
abbrev pub is_tenant_admin : AuthDb → ℕ → ℕ → Bool
is_tenant_admin db tenant_id user_id =
    any
      (λ (ur : UserRole).
        ur.user_id == user_id
        && (any
              (λ (r : Role).
                r.id == ur.role_id && (r.tenant_id == tenant_id && str_eq r.code "tenant_admin"))
              db.roles
            && any
                (λ (u : AuthUser).
                  u.id == user_id
                  && (same_option u.tenant_id (some tenant_id)
                      && (is_active u.status && not (is_system_admin u.user_type))))
                db.users))
      db.user_roles

-- The rank of an actor that the headers name.
unfoldable pub rank : ℕ → AuthDb → ℕ → ℕ → ActorLevel
rank bootstrap_id db tenant_id user_id =
    if user_id == bootstrap_id && find_system_admin db (some user_id)
    then super_admin
    else if find_system_admin db (some user_id)
    then system_admin
    else if is_tenant_admin db tenant_id user_id
    then tenant_admin
    else tenant_user

unfoldable pub find_actor_level : ℕ → AuthDb → Option ℕ → ℕ → ActorLevel
find_actor_level bootstrap_id db none tenant_id = tenant_user
find_actor_level bootstrap_id db (some user_id) tenant_id = rank bootstrap_id db tenant_id user_id

abbrev pub permission_row : AuthEnv → PermissionInput → Permission
permission_row env input = record {
  id = env.row_id;
  code = input.code;
  description = input.description;
}

abbrev pub role_row : AuthEnv → ℕ → CreateRoleInput → Role
role_row env tenant_id input = record {
  id = env.row_id;
  tenant_id = tenant_id;
  code = input.code;
  name = input.name;
  description = input.description;
}

abbrev pub assignment_row : AuthEnv → ℕ → ℕ → Option ℕ → UserRole
assignment_row env user_id role_id warehouse_id = record {
  id = env.row_id;
  user_id = user_id;
  role_id = role_id;
  warehouse_id = warehouse_id;
}

module _ (is_system_code : String → Bool) (bootstrap_id : ℕ) (env : AuthEnv)
    (context : CommandContext) (seen : AuthDb) where
  unfoldable pub create_permission : PermissionInput → Tx Permission
  create_permission input = do
    tenant_id ← or_throw context.tenant_id tenant_required
    throw_if (is_some (find_permission_code input.code seen)) permission_code_conflict
    let created = permission_row env input
    taken ← gets (find_permission_code input.code)
    throw_if (is_some taken) internal_error
    modify (λ db. record db { permissions = created ∷ db.permissions })
    record_event env (
        auth_event tenant_id context "auth.permission.created" "permission" env.row_id
          (obj (field "permissionId" (uuid env.row_id) (field "code" (str input.code) end))))
    pure created

  unfoldable pub create_role : CreateRoleInput → Tx Role
  create_role input = do
    tenant_id ← or_throw context.tenant_id tenant_required
    throw_if (str_eq input.code "system_admin") admin_scope_mismatch
    throw_if (is_some (find_role_code tenant_id input.code seen)) role_code_conflict
    let created = role_row env tenant_id input
    taken ← gets (find_role_code tenant_id input.code)
    throw_if (is_some taken) internal_error
    modify (λ db. record db { roles = created ∷ db.roles })
    record_event env (
        auth_event tenant_id context "auth.role.created" "role" env.row_id
          (obj (field "roleId" (uuid env.row_id) (field "code" (str input.code) end))))
    pure created

  unfoldable pub update_role : ℕ → UpdateRoleInput → Tx Role
  update_role role_id input = do
    tenant_id ← or_throw context.tenant_id tenant_required
    throw_if (not (is_some (find_tenant_role tenant_id role_id seen))) role_not_found
    throw_if (is_reserved_code input.code) admin_scope_mismatch
    throw_if (code_taken seen tenant_id role_id input.code) role_code_conflict
    found ← gets (find_role role_id)
    role ← or_throw found internal_error
    taken ← gets (λ db. any (clashes_role (updated_role input role)) db.roles)
    throw_if taken internal_error
    modify (λ db. record db {
      roles = update_where (λ r. r.id == role_id) (updated_role input) db.roles;
    })
    record_event env (
        auth_event tenant_id context "auth.role.updated" "role" role_id
          (obj (field "roleId" (uuid role_id) (field "changedFields" (role_fields input) end))))
    pure (updated_role input role)

  unfoldable pub replace_role_permissions : ℕ → List String → Tx Role
  replace_role_permissions role_id codes = do
    tenant_id ← or_throw context.tenant_id tenant_required
    throw_if (any is_system_code codes) admin_scope_mismatch
    found ← gets (find_tenant_role tenant_id role_id)
    role ← or_throw found role_not_found
    missing ← gets (λ db. any (is_missing db) codes)
    throw_if missing validation_failed
    modify (λ db. record db {
      role_permissions = select (λ rp. not (rp.role_id == role_id)) db.role_permissions;
    })
    modify (λ db. record db {
      role_permissions =
          map (λ (p : Permission). record { role_id = role_id; permission_id = p.id })
            (select (is_code_of codes) db.permissions)
          ++ db.role_permissions;
    })
    record_event env (
        auth_event tenant_id context "auth.role.permissionsReplaced" "role" role_id
          (obj (field "roleId" (uuid role_id) (field "permissionCodes" (arr (strings codes)) end))))
    pure role

  abbrev pub assigned_data : ℕ → ℕ → ℕ → String → Option ℕ → Json
  assigned_data id user_id role_id role_code warehouse_id = obj (
      field "userRoleId" (uuid id) (
        field "targetUserId" (uuid user_id) (
          field "roleId" (uuid role_id) (
            field "roleCode" (str role_code)
              (field "warehouseId" (uuid_or_null warehouse_id) end)))))

  -- `assertCanAssignRole`
  abbrev pub may_not_assign : ℕ → String → Bool
  may_not_assign tenant_id role_code =
      str_eq role_code "tenant_admin"
      && is_tenant_level (find_actor_level bootstrap_id seen context.user_id tenant_id)

  unfoldable pub assign_user_role : ℕ → ℕ → Option ℕ → Tx UserRole
  assign_user_role user_id role_id warehouse_id = do
    tenant_id ← or_throw context.tenant_id tenant_required
    found_user ← gets (find_tenant_user tenant_id user_id)
    user ← or_throw found_user user_not_found
    found_role ← gets (find_tenant_role tenant_id role_id)
    role ← or_throw found_role role_not_found
    throw_if (str_eq role.code "tenant_admin" && is_some warehouse_id) admin_scope_mismatch
    throw_if (may_not_assign tenant_id role.code) admin_scope_mismatch
    existing ← gets (λ db. any (same_assignment user_id role_id warehouse_id) db.user_roles)
    throw_if existing user_role_conflict
    let created = assignment_row env user_id role_id warehouse_id
    modify (λ db. record db { user_roles = created ∷ db.user_roles })
    record_event env (
        auth_event tenant_id context "auth.userRole.assigned" "user_role" env.row_id
          (assigned_data env.row_id user_id role_id role.code warehouse_id))
    pure created

  -- The assignment of the id, to a role of the tenant.
  abbrev pub find_assignment : ℕ → ℕ → AuthDb → Option UserRole
  find_assignment tenant_id user_role_id db =
      find
        (λ ur.
          ur.id == user_role_id
          && any (λ (r : Role). r.id == ur.role_id && r.tenant_id == tenant_id) db.roles)
        db.user_roles

  abbrev pub code_of : Option Role → String
  code_of none = ""
  code_of (some r) = r.code

  unfoldable pub remove_user_role : ℕ → Tx Unit
  remove_user_role user_role_id = do
    tenant_id ← or_throw context.tenant_id tenant_required
    found ← gets (find_assignment tenant_id user_role_id)
    assignment ← or_throw found user_role_not_found
    role ← gets (find_role assignment.role_id)
    modify
        (λ db. record db { user_roles = select (λ ur. not (ur.id == user_role_id)) db.user_roles })
    record_event env (
        auth_event tenant_id context "auth.userRole.removed" "user_role" user_role_id (
          assigned_data user_role_id assignment.user_id assignment.role_id (code_of role)
            assignment.warehouse_id))
