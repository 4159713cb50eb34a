-- ===== src/Gateway/Verifier.antt =====
-- apps/gateway-service/src/auth/jwt-verifier.ts
pub mod RoundTrip
use multi_tenant.Base.{
  ℕ, ◌*◌, String, Bool, true, false, not, ◌&&◌, ◌||◌, Option, none, some, List, [], ◌∷◌, ◌==◌, leb,
  any, str_eq, if◌then◌else◌,
}
use multi_tenant.Gateway.Claims.{
  Algorithm, hs256, rs256, Audience, one, many, GatewayJwtClaims, JwtHeader, AuthError,
  invalid_token, token_expired, Result, ok, err, JwtConfig, Jose, is_filled, algorithm_name,
}

abbrev pub is_text : String → Option String → Bool
is_text s none = false
is_text s (some t) = str_eq t s

-- `payload.exp && payload.exp * 1000 <= Date.now()`: an absent expiry and 0 do not expire.
abbrev pub is_expired : ℕ → Option ℕ → Bool
is_expired now none = false
is_expired now (some exp) = not (exp == 0) && leb (exp * 1000) now

abbrev pub has_audience : String → Option Audience → Bool
has_audience expected none = false
has_audience expected (some (one a)) = str_eq a expected
has_audience expected (some (many l)) = any (λ a. str_eq a expected) l

-- `verifyIssuer` and `verifyAudience`, which check nothing where nothing is configured.
unfoldable pub wrong_issuer : Option String → Option String → Bool
wrong_issuer none iss = false
wrong_issuer (some expected) iss = not (str_eq expected "") && not (is_text expected iss)

unfoldable pub wrong_audience : Option String → Option Audience → Bool
wrong_audience none aud = false
wrong_audience (some expected) aud = not (str_eq expected "") && not (has_audience expected aud)

-- The part of `verify` after the signature.
unfoldable pub check_claims : JwtConfig → ℕ → GatewayJwtClaims → Result GatewayJwtClaims
check_claims config now payload =
    if not (is_filled payload.sub && is_filled payload.user_type)
    then err invalid_token
    else if not (is_text "system_admin" payload.user_type) && not (is_filled payload.tenant_id)
    then err invalid_token
    else if is_expired now payload.exp
    then err token_expired
    else if wrong_issuer config.issuer payload.iss || wrong_audience config.audience payload.aud
    then err invalid_token
    else ok payload

pub record Parts : Type 0 where
  pub header : String
  pub payload : String
  pub signature : String

-- The first three parts, all of which have to be there and not empty; further ones are ignored.
unfoldable pub read_parts : List String → Option Parts
read_parts (h ∷ p ∷ s ∷ rest) =
    if not (str_eq h "") && (not (str_eq p "") && not (str_eq s ""))
    then some (record { header = h; payload = p; signature = s })
    else none
read_parts _ = none

-- `verifyHs256`, and `verifyRs256`, by the key that is configured
unfoldable pub has_hmac : Jose → Parts → Option String → Bool
has_hmac jose parts none = false
has_hmac jose parts (some secret) =
    not (str_eq secret "")
    && str_eq parts.signature (jose.hmac secret (jose.dot parts.header parts.payload))

unfoldable pub has_rsa : Jose → Parts → Option String → Bool
has_rsa jose parts none = false
has_rsa jose parts (some key) =
    not (str_eq key "") && jose.rsa_verify key (jose.dot parts.header parts.payload) parts.signature

module _ (jose : Jose) (config : JwtConfig) where
  abbrev pub has_signature : Algorithm → Parts → Bool
  has_signature hs256 parts = has_hmac jose parts config.secret
  has_signature rs256 parts = has_rsa jose parts config.public_key

  abbrev pub checked_parts :
      ℕ → Parts → Option JwtHeader → Option GatewayJwtClaims → Result GatewayJwtClaims
  checked_parts now parts (some header) (some payload) =
      if is_text (algorithm_name config.algorithm) header.alg
        && has_signature config.algorithm parts
      then check_claims config now payload
      else err invalid_token
  checked_parts now parts _ _ = err invalid_token

  abbrev pub checked_token : ℕ → Option Parts → Result GatewayJwtClaims
  checked_token now none = err invalid_token
  checked_token now (some parts) =
      checked_parts now parts (jose.decode_header parts.header) (jose.decode_claims parts.payload)

  unfoldable pub verify : ℕ → String → Result GatewayJwtClaims
  verify now token = checked_token now (read_parts (jose.split token))
