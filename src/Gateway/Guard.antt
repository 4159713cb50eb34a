-- ===== src/Gateway/Guard.antt =====
-- apps/gateway-service/src/auth/gateway-auth.guard.ts: who a request goes on as.
pub mod Genuine
use multi_tenant.Base.{
  ℕ, String, Bool, true, false, not, ◌&&◌, ◌||◌, Option, none, some, str_eq, if◌then◌else◌,
}
use multi_tenant.Gateway.Claims.{
  GatewayJwtClaims, AuthError, unauthorized, tenant_mismatch, Result, ok, err, JwtConfig, Jose,
  is_filled,
}
use multi_tenant.Gateway.Verifier.{verify}

-- The operations of the language on texts: `startsWith`, `endsWith("/")`, `slice(0, -1)`,
-- `slice("Bearer ".length).trim()` and `toUpperCase`.
pub record HttpText : Type 0 where
  pub starts_with : String → String → Bool
  pub ends_with_slash : String → Bool
  pub drop_last : String → String
  pub after_bearer : String → String
  pub upper : String → String

-- Who calls, by the headers at first.
pub record RequestContext : Type 0 where
  pub tenant_id : Option String
  pub user_id : Option String

pub record GatewayRequest : Type 0 where
  pub method : String
  pub path : String
  pub authorization : Option String
  pub context : RequestContext

abbrev pub differ : Option String → Option String → Bool
differ (some a) (some b) = not (str_eq a b)
differ _ _ = false

-- `if (claims.tenantId) { req.context.tenantId = claims.tenantId }`
abbrev pub token_tenant : Option String → Option String → Option String
token_tenant none header = header
token_tenant (some t) header = if str_eq t "" then header else some t

module _ (text : HttpText) (jose : Jose) (config : JwtConfig) where
  unfoldable pub read_bearer_token : Option String → Result String
  read_bearer_token none = err unauthorized
  read_bearer_token (some authorization) =
      if text.starts_with authorization "Bearer "
      then ok (text.after_bearer authorization)
      else err unauthorized

  abbrev pub endpoint : String → String
  endpoint path = if text.ends_with_slash path then text.drop_last path else path

  unfoldable pub is_public_auth_endpoint : GatewayRequest → Bool
  is_public_auth_endpoint req =
      str_eq (text.upper req.method) "POST"
      && (str_eq (endpoint req.path) "/api/auth/login"
          || str_eq (endpoint req.path) "/api/auth/token/refresh")

  abbrev pub with_claims : RequestContext → GatewayJwtClaims → Result RequestContext
  with_claims context claims =
      if is_filled claims.tenant_id
        && (is_filled context.tenant_id && differ context.tenant_id claims.tenant_id)
      then err tenant_mismatch
      else ok (record {
        tenant_id = token_tenant claims.tenant_id context.tenant_id;
        user_id = claims.sub;
      })

  abbrev pub with_verified : RequestContext → Result GatewayJwtClaims → Result RequestContext
  with_verified context (ok claims) = with_claims context claims
  with_verified context (err e) = err e

  abbrev pub with_token : ℕ → RequestContext → Result String → Result RequestContext
  with_token now context (ok token) = with_verified context (verify jose config now token)
  with_token now context (err e) = err e

  -- The context that the request goes on with. `is_public` is what the route's decorator says.
  unfoldable pub can_activate : ℕ → Bool → GatewayRequest → Result RequestContext
  can_activate now is_public req =
      if is_public || (not (text.starts_with req.path "/api/") || is_public_auth_endpoint req)
      then ok req.context
      else with_token now req.context (read_bearer_token req.authorization)
