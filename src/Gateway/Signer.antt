-- ===== src/Gateway/Signer.antt =====
-- apps/auth-iam-service/src/auth/jwt-signer.ts
use multi_tenant.Base.{ℕ, ◌+◌, ◌/◌, String, Bool, Option, none, some, str_eq, if◌then◌else◌}
use multi_tenant.Gateway.Claims.{
  Algorithm, hs256, rs256, Audience, one, GatewayJwtClaims, signing_key_not_configured, Result, ok,
  err, JwtConfig, Jose, is_filled, algorithm_name,
}

-- `tenantId ? { tenantId } : {}`
abbrev pub if_filled : Option String → Option String
if_filled none = none
if_filled (some s) = if str_eq s "" then none else some s

abbrev pub audience_of : Option String → Option Audience
audience_of none = none
audience_of (some a) = some (one a)

abbrev pub or_empty : Option String → String
or_empty none = ""
or_empty (some s) = s

abbrev pub issued_claims : JwtConfig → ℕ → ℕ → String → Option String → String → GatewayJwtClaims
issued_claims config ttl_seconds now user_id tenant_id user_type = record {
  sub = some user_id;
  tenant_id = if_filled tenant_id;
  user_type = some user_type;
  exp = some (now / 1000 + ttl_seconds);
  iat = some (now / 1000);
  iss = config.issuer;
  aud = audience_of config.audience;
}

module _ (jose : Jose) (config : JwtConfig) where
  abbrev pub signing_input : GatewayJwtClaims → String
  signing_input claims =
      jose.dot (jose.encode_header (record { alg = some (algorithm_name config.algorithm) }))
        (jose.encode_claims claims)

  abbrev pub signed : Bool → String → String → Result String
  signed configured input signature =
      if configured then ok (jose.dot input signature) else err signing_key_not_configured

  abbrev pub sign_with : Algorithm → String → Result String
  sign_with hs256 input =
      signed (is_filled config.secret) input (jose.hmac (or_empty config.secret) input)
  sign_with rs256 input =
      signed (is_filled config.private_key) input
        (jose.rsa_sign (or_empty config.private_key) input)

  unfoldable pub sign : GatewayJwtClaims → Result String
  sign claims = sign_with config.algorithm (signing_input claims)

  -- `now` is in milliseconds.
  unfoldable pub sign_access_token : ℕ → ℕ → String → Option String → String → Result String
  sign_access_token ttl_seconds now user_id tenant_id user_type =
      sign (issued_claims config ttl_seconds now user_id tenant_id user_type)
