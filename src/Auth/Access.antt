-- ===== src/Auth/Access.antt =====
-- Permission checks: `check`, `summary` and what they read, of
-- apps/auth-iam-service/src/permissions/rbac.service.ts.
pub mod Allowed
use multi_tenant.Base.{
  ℕ, String, Bool, true, false, not, ◌&&◌, ◌||◌, Option, none, some, List, [], ◌∷◌, ◌==◌, find, any,
  select, str_eq, is_some, if◌then◌else◌,
}
use multi_tenant.Uuid.{UuidText, is_column}
use multi_tenant.Auth.Types.{
  AuthUser, Role, UserRole, AuthDb, CommandContext, is_active, is_system_admin,
}
use multi_tenant.Auth.Effects.{
  AuthError, tenant_required, user_not_found, account_locked, admin_scope_mismatch, Result, ok, err,
}
use multi_tenant.Auth.Store.{same_option, find_tenant_user, role_has_code}
use multi_tenant.Auth.Users.{find_system_admin}

-- An assignment to a role of the tenant.
abbrev pub is_role_of : AuthDb → ℕ → ℕ → Bool
is_role_of db tenant_id role_id =
    any (λ (r : Role). r.id == role_id && r.tenant_id == tenant_id) db.roles

-- On the user that was found.
abbrev pub assignments_of : AuthDb → ℕ → ℕ → Option AuthUser → Result (List UserRole)
assignments_of db tenant_id user_id none = err user_not_found
assignments_of db tenant_id user_id (some u) =
    if is_active u.status
    then ok
        (select (λ ur. ur.user_id == user_id && is_role_of db tenant_id ur.role_id) db.user_roles)
    else err account_locked

unfoldable pub get_active_user_assignments : AuthDb → ℕ → ℕ → Result (List UserRole)
get_active_user_assignments db tenant_id user_id =
    assignments_of db tenant_id user_id (find_tenant_user tenant_id user_id db)

-- An assignment to one warehouse serves that warehouse only, whose text is compared with the column;
-- one without a warehouse serves all.
abbrev pub covers : Option ℕ → Option UuidText → Bool
covers none requested = true
covers (some w) none = false
covers (some w) (some requested) = is_column requested w

unfoldable pub allows : AuthDb → String → Option UuidText → UserRole → Bool
allows db code warehouse_id ur =
    covers ur.warehouse_id warehouse_id && role_has_code db ur.role_id code

abbrev pub any_allows : AuthDb → String → Option UuidText → Result (List UserRole) → Result Bool
any_allows db code warehouse_id (ok assignments) =
    ok (any (allows db code warehouse_id) assignments)
any_allows db code warehouse_id (err e) = err e

-- `is_system_code` is `startsWith("system.")`.
module _ (is_system_code : String → Bool) where
  -- The part for users of a tenant.
  unfoldable pub check_tenant_user : AuthDb → Option ℕ → ℕ → String → Option UuidText → Result Bool
  check_tenant_user db none user_id code warehouse_id = err tenant_required
  check_tenant_user db (some tenant_id) user_id code warehouse_id =
      if is_system_code code
      then err admin_scope_mismatch
      else any_allows db code warehouse_id (get_active_user_assignments db tenant_id user_id)

  unfoldable pub check : AuthDb → Option ℕ → ℕ → String → Option UuidText → Result Bool
  check db tenant_id user_id code warehouse_id =
      if find_system_admin db (some user_id)
      then ok true
      else check_tenant_user db tenant_id user_id code warehouse_id
