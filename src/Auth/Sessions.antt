-- ===== src/Auth/Sessions.antt =====
-- Sessions: `login`, `refresh` and `revoke` of apps/auth-iam-service/src/auth/auth.service.ts. A
-- read that no lock protects may see the database at another moment than the write that follows:
-- `seen` is what it saw, of which nothing is assumed. A refresh that has the database to itself
-- sees the database that it writes.
pub mod Once
use multi_tenant.Base.{
  ℕ, ◌+◌, ◌*◌, String, Bool, true, false, not, ◌&&◌, ◌||◌, Option, none, some, List, [], ◌∷◌, ◌==◌,
  leb, any, select, str_eq, is_some, length, if◌then◌else◌,
}
use multi_tenant.Auth.Types.{
  AuthUser, RefreshToken, Role, UserRole, UserType, UserStatus, AuthDb, AuthEnv, is_active,
  is_system_admin,
}
use multi_tenant.Auth.Effects.{
  AuthError, validation_failed, invalid_credentials, invalid_token, account_locked, login_ambiguous,
  forbidden, tenant_mismatch, Result, ok, err, Tx, ◌>>=◌, ◌>>◌, pure, throw, throw_if, or_throw,
  gets, modify, lift,
}
use multi_tenant.Auth.Input.{
  Text, LoginCommand, LoginInput, RefreshCommand, RefreshInput, RevokeCommand, RevokeInput,
  validate_login, validate_refresh, validate_revoke, is_truthy, is_empty,
}
use multi_tenant.Auth.Store.{
  same_option, find_user, find_by_email, find_token, role_has_code, create_token, update_tokens,
}

-- PasswordHasher.verify, of a password and a stored hash; the hash of a refresh token; and
-- JwtSigner.signAccessToken, which throws where no key is configured.
pub record Crypto : Type 0 where
  pub verify : String → String → Bool
  pub hash_refresh_token : String → String
  pub sign_access_token : ℕ → Option ℕ → UserType → Result String

pub record AuthConfig : Type 0 where
  pub refresh_token_ttl_seconds : ℕ

pub record TokenPair : Type 0 where
  pub access_token : String
  pub refresh_token : String
  pub refresh_expires_in : ℕ

-- `ADMIN_LOGIN_PERMISSIONS`
abbrev pub admin_login_permissions : List String
admin_login_permissions =
    "tenant.tenants.read" ∷ "auth.users.read" ∷ "auth.roles.read" ∷ "auth.permissions.read"
    ∷ "audit.logs.read" ∷ []

-- Some role of the user, as the two joined tables have it, passes a test.
abbrev pub has_role : AuthDb → ℕ → (Role → Bool) → Bool
has_role db user_id test =
    any
      (λ (ur : UserRole).
        ur.user_id == user_id && any (λ (r : Role). r.id == ur.role_id && test r) db.roles)
      db.user_roles

abbrev pub has_admin_code : AuthDb → Role → Bool
has_admin_code db r =
    str_eq r.code "tenant_admin" || any (role_has_code db r.id) admin_login_permissions

unfoldable pub is_admin_login_eligible : AuthDb → AuthUser → Bool
is_admin_login_eligible db user =
    (is_system_admin user.user_type && not (is_some user.tenant_id))
    || has_role db user.id (has_admin_code db)

-- What `matches` holds: more than one is an error, so their order does not matter.
unfoldable pub only_match : List AuthUser → Result (Option AuthUser)
only_match [] = ok none
only_match (u ∷ []) = ok (some u)
only_match (u ∷ v ∷ us) = err login_ambiguous

module _ (text : Text) (crypto : Crypto) (config : AuthConfig) (env : AuthEnv) where
  unfoldable pub resolve_admin_login_user : AuthDb → String → String → Result (Option AuthUser)
  resolve_admin_login_user db email password = only_match (
      select
        (λ u.
          str_eq u.email email
          && (is_admin_login_eligible db u && crypto.verify password u.password_hash))
        db.users)

  abbrev pub find_login_user : AuthDb → LoginInput → Option ℕ → Result (Option AuthUser)
  find_login_user db input none = resolve_admin_login_user db input.email input.password
  find_login_user db input (some tenant_id) = ok (find_by_email tenant_id input.email db)

  abbrev pub new_token : Option ℕ → ℕ → RefreshToken
  new_token tenant_id user_id = record {
    id = env.row_id;
    tenant_id = tenant_id;
    user_id = user_id;
    token_hash = crypto.hash_refresh_token env.opaque_token;
    expires_at = env.now + config.refresh_token_ttl_seconds * 1000;
    revoked_at = none;
    replaced_by = none;
  }

  abbrev pub token_pair : String → TokenPair
  token_pair access_token = record {
    access_token = access_token;
    refresh_token = env.opaque_token;
    refresh_expires_in = config.refresh_token_ttl_seconds;
  }

  unfoldable pub login : AuthDb → LoginCommand → Tx TokenPair
  login seen command = do
    input ← lift (validate_login text command)
    found ← lift (find_login_user seen input input.tenant_id)
    user ← or_throw found invalid_credentials
    throw_if (not (is_active user.status)) account_locked
    throw_if (is_some input.tenant_id && not (crypto.verify input.password user.password_hash))
        invalid_credentials
    access_token ← lift (crypto.sign_access_token user.id user.tenant_id user.user_type)
    create_token (new_token user.tenant_id user.id)
    pure (token_pair access_token)

  -- The condition under which a refresh token is refused.
  abbrev pub is_unusable : RefreshToken → AuthUser → Bool
  is_unusable token user =
      is_some token.revoked_at || (leb token.expires_at env.now || not (is_active user.status))

  -- `input.tenantId && token.tenantId !== input.tenantId`
  abbrev pub is_other_tenant : Option ℕ → RefreshToken → Bool
  is_other_tenant requested token = is_some requested && not (same_option token.tenant_id requested)

  abbrev pub rotated : RefreshToken → RefreshToken
  rotated token = record token { revoked_at = some env.now; replaced_by = some env.row_id }

  unfoldable pub refresh : AuthDb → RefreshCommand → Tx TokenPair
  refresh seen command = do
    input ← lift (validate_refresh text command)
    let hash = crypto.hash_refresh_token input.refresh_token
    current ← or_throw (find_token hash seen) invalid_token
    user ← or_throw (find_user current.user_id seen) invalid_token
    throw_if (is_unusable current user) invalid_token
    throw_if (is_other_tenant input.tenant_id current) (tenant_mismatch "refresh_token")
    access_token ← lift (crypto.sign_access_token current.user_id current.tenant_id user.user_type)
    create_token (new_token current.tenant_id current.user_id)
    update_tokens (λ t. t.id == current.id) rotated
    pure (token_pair access_token)

  abbrev pub revoked : RefreshToken → RefreshToken
  revoked token = record token { revoked_at = some env.now }

  -- `updateMany`, which returns how many rows it has changed.
  unfoldable pub revoke_where : (RefreshToken → Bool) → Tx ℕ
  revoke_where test = do
    count ← gets (λ db. length (select (λ t. test t && not (is_some t.revoked_at)) db.tokens))
    update_tokens (λ t. test t && not (is_some t.revoked_at)) revoked
    pure count

  abbrev pub is_other_user : Option ℕ → RefreshToken → Bool
  is_other_user none token = false
  is_other_user (some user_id) token = not (token.user_id == user_id)

  -- The branch for a refresh token, on the row that was found.
  unfoldable pub revoke_found : RevokeInput → Option RefreshToken → Tx ℕ
  revoke_found input none = pure 0
  revoke_found input (some token) = do
    throw_if (is_other_tenant input.tenant_id token) (tenant_mismatch "refresh_token")
    throw_if (is_other_user input.user_id token) forbidden
    revoke_where (λ t. t.id == token.id)

  abbrev pub is_of : Option ℕ → ℕ → RefreshToken → Bool
  is_of none user_id t = t.user_id == user_id
  is_of (some tenant_id) user_id t =
      same_option t.tenant_id (some tenant_id) && t.user_id == user_id

  -- The branch for a user.
  unfoldable pub revoke_user : RevokeInput → Option ℕ → Tx ℕ
  revoke_user input none = throw validation_failed
  revoke_user input (some user_id) = revoke_where (is_of input.tenant_id user_id)

  unfoldable pub revoke_input : AuthDb → RevokeInput → Option String → Tx ℕ
  revoke_input seen input none = revoke_user input input.user_id
  revoke_input seen input (some token) =
      if is_empty token
      then revoke_user input input.user_id
      else revoke_found input (find_token (crypto.hash_refresh_token token) seen)

  unfoldable pub revoke : AuthDb → RevokeCommand → Tx ℕ
  revoke seen command = do
    input ← lift (validate_revoke text command)
    revoke_input seen input input.refresh_token
