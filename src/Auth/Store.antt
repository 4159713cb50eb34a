-- ===== src/Auth/Store.antt =====
-- Queries and statements on the identity service's tables, with the keys that
-- apps/auth-iam-service/prisma/schema.prisma declares. A statement that breaks a key throws.
use multi_tenant.Base.{
  ℕ, String, Bool, true, false, not, ◌&&◌, Option, none, some, ◌∷◌, ◌==◌, find, any, update_where,
  str_eq, is_some,
}
use multi_tenant.Json.{Json}
use multi_tenant.Outbox.{OutboxEventCommand, outbox_row}
use multi_tenant.Auth.Types.{
  AuthUser, RefreshToken, Role, Permission, AuthDb, CommandContext, AuthEnv,
}
use multi_tenant.Auth.Effects.{internal_error, Tx, ◌>>=◌, ◌>>◌, throw_if, gets, modify}

-- Equality of columns that may be NULL, as the code compares them in JavaScript.
abbrev pub same_option : Option ℕ → Option ℕ → Bool
same_option none none = true
same_option (some a) (some b) = a == b
same_option none (some b) = false
same_option (some a) none = false

abbrev pub find_user : ℕ → AuthDb → Option AuthUser
find_user id db = find (λ u. u.id == id) db.users

-- A user of a tenant: `authUser.findFirst` by the id and the tenant.
abbrev pub find_tenant_user : ℕ → ℕ → AuthDb → Option AuthUser
find_tenant_user tenant_id id db =
    find (λ u. u.id == id && same_option u.tenant_id (some tenant_id)) db.users

-- `authUser.findUnique` by the tenant and the email
abbrev pub find_by_email : ℕ → String → AuthDb → Option AuthUser
find_by_email tenant_id email db =
    find (λ u. same_option u.tenant_id (some tenant_id) && str_eq u.email email) db.users

abbrev pub find_token : String → AuthDb → Option RefreshToken
find_token hash db = find (λ t. str_eq t.token_hash hash) db.tokens

abbrev pub find_role : ℕ → AuthDb → Option Role
find_role id db = find (λ r. r.id == id) db.roles

abbrev pub find_tenant_role : ℕ → ℕ → AuthDb → Option Role
find_tenant_role tenant_id id db = find (λ r. r.id == id && r.tenant_id == tenant_id) db.roles

-- `role.findUnique` by the tenant and the code
abbrev pub find_role_code : ℕ → String → AuthDb → Option Role
find_role_code tenant_id code db =
    find (λ r. r.tenant_id == tenant_id && str_eq r.code code) db.roles

abbrev pub find_permission : ℕ → AuthDb → Option Permission
find_permission id db = find (λ p. p.id == id) db.permissions

abbrev pub find_permission_code : String → AuthDb → Option Permission
find_permission_code code db = find (λ p. str_eq p.code code) db.permissions

-- The role has the permission: some row of `role_permissions` joins them.
abbrev pub has_code : AuthDb → ℕ → String → Bool
has_code db permission_id code =
    any (λ (p : Permission). p.id == permission_id && str_eq p.code code) db.permissions

abbrev pub role_has_code : AuthDb → ℕ → String → Bool
role_has_code db role_id code =
    any (λ rp. rp.role_id == role_id && has_code db rp.permission_id code) db.role_permissions

-- `INSERT` of a refresh token: its hash is unique, and its user exists.
unfoldable pub create_token : RefreshToken → Tx Unit
create_token token = do
  taken ← gets (find_token token.token_hash)
  throw_if (is_some taken) internal_error
  owner ← gets (find_user token.user_id)
  throw_if (not (is_some owner)) internal_error
  modify (λ db. record db { tokens = token ∷ db.tokens })

-- `UPDATE` of the refresh tokens that a condition selects.
unfoldable pub update_tokens : (RefreshToken → Bool) → (RefreshToken → RefreshToken) → Tx Unit
update_tokens where_ set = modify (λ db. record db { tokens = update_where where_ set db.tokens })

-- `OutboxEventService.record`
unfoldable pub record_event : AuthEnv → OutboxEventCommand → Tx Unit
record_event env command = modify (λ db. record db {
  outbox = outbox_row "auth-iam-service" env.outbox_id env.event_id env.now command ∷ db.outbox;
})

abbrev pub auth_event : ℕ → CommandContext → String → String → ℕ → Json → OutboxEventCommand
auth_event tenant_id context event_type aggregate_type aggregate_id payload_data = record {
  context = record {
    tenant_id = record { value = tenant_id; is_lower = context.tenant_is_lower };
    user_id = context.user_id;
    request_id = context.request_id;
  };
  event_type = event_type;
  aggregate_type = aggregate_type;
  aggregate_id = aggregate_id;
  payload_data = payload_data;
  schema_version = none;
}
