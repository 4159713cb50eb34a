-- ===== src/Gateway/Claims.antt =====
-- The claims and headers of access tokens, as apps/auth-iam-service/src/auth/jwt-signer.ts and
-- apps/gateway-service/src/auth/jwt-verifier.ts declare them, and the parts of a token.
use multi_tenant.Base.{ℕ, String, Bool, false, not, Option, none, some, List, str_eq}

pub data Algorithm : Type 0 where
  hs256 rs256 : Algorithm

pub data Audience : Type 0 where
  one : String → Audience
  many : List String → Audience

-- What is in a token: a field of the JSON may be absent.
pub record GatewayJwtClaims : Type 0 where
  pub sub : Option String
  pub tenant_id : Option String
  pub user_type : Option String
  pub exp : Option ℕ
  pub iat : Option ℕ
  pub iss : Option String
  pub aud : Option Audience

pub record JwtHeader : Type 0 where
  pub alg : Option String

pub data AuthError : Type 0 where
  invalid_token token_expired signing_key_not_configured unauthorized tenant_mismatch : AuthError

pub data Result (A : Type 0) : Type 0 where
  ok : A → Result A
  err : AuthError → Result A

-- The key material of both services. A text that is absent and an empty one are not configured.
pub record JwtConfig : Type 0 where
  pub algorithm : Algorithm
  pub secret : Option String
  pub private_key : Option String
  pub public_key : Option String
  pub issuer : Option String
  pub audience : Option String

-- The library functions that the code calls: base64url of JSON and its inverse, which throws on
-- other texts; `a + "." + b`; `split(".")`; the HMAC, and the RSA signature with its check, all on
-- and to texts.
pub record Jose : Type 0 where
  pub encode_header : JwtHeader → String
  pub encode_claims : GatewayJwtClaims → String
  pub decode_header : String → Option JwtHeader
  pub decode_claims : String → Option GatewayJwtClaims
  pub dot : String → String → String
  pub split : String → List String
  pub hmac : String → String → String
  pub rsa_sign : String → String → String
  pub rsa_verify : String → String → String → Bool

abbrev pub is_filled : Option String → Bool
is_filled none = false
is_filled (some s) = not (str_eq s "")

abbrev pub algorithm_name : Algorithm → String
algorithm_name hs256 = "HS256"
algorithm_name rs256 = "RS256"
