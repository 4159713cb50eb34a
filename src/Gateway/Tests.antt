-- ===== src/Gateway/Tests.antt =====
-- A token of toy functions, checked and let through.
use multi_tenant.Base.{
  ◌+◌, ◌*◌, ◌/◌, String, true, false, ◌≡◌, refl, none, some, [], ◌∷◌, arith, leb, if◌then◌else◌,
}
use multi_tenant.Gateway.Claims.{hs256, GatewayJwtClaims, token_expired, ok, err, JwtConfig, Jose}
use multi_tenant.Gateway.Signer.{issued_claims, sign_access_token}
use multi_tenant.Gateway.Verifier.{
  verify, read_parts, has_hmac, check_claims, wrong_issuer, wrong_audience,
}
use multi_tenant.Gateway.Verifier.RoundTrip.{IsFaithful, verify-sign_access_token}
use multi_tenant.Gateway.Guard.{
  HttpText, GatewayRequest, can_activate, read_bearer_token, is_public_auth_endpoint,
}
use multi_tenant.Gateway.Guard.Genuine.{IsGenuine, can_activate-IsGenuine}

abbrev config : JwtConfig
config = record {
  algorithm = hs256;
  secret = some "secret";
  private_key = none;
  public_key = none;
  issuer = some "iam";
  audience = none;
}

abbrev claims : GatewayJwtClaims
claims = issued_claims config 60 5000 "user" (some "tenant") "general_user"

abbrev jose : Jose
jose = record {
  encode_header = λ h. "h";
  encode_claims = λ c. "p";
  decode_header = λ s. some (record { alg = some "HS256" });
  decode_claims = λ s. some claims;
  dot = λ a b. a;
  split = λ s. "h" ∷ "p" ∷ "sig" ∷ [];
  hmac = λ k s. "sig";
  rsa_sign = λ k s. "sig";
  rsa_verify = λ k s t. false;
}

jose-IsFaithful : IsFaithful jose (record { alg = some "HS256" }) claims
jose-IsFaithful = record {
  header = refl;
  claims = refl;
  header_filled = refl;
  claims_filled = refl;
  hmac_filled = λ k s. refl;
  rsa_filled = λ k s. refl;
  split_hmac = λ k s. refl;
  split_rsa = λ k s. refl;
}

verify-sign_access_token_example :
    (token : String) × (sign_access_token jose config 60 5000 "user" (some "tenant") "general_user"
      ≡ ok token)
    × (verify jose config 64999 token
        ≡ (if leb ((5000 / 1000 + 60) * 1000) 64999 then err token_expired else ok claims))
verify-sign_access_token_example =
    verify-sign_access_token config 60 5000 64999 "user" (some "tenant") "general_user"
      (omega arith) refl refl refl jose jose-IsFaithful refl

abbrev text : HttpText
text = record {
  starts_with = λ s prefix. true;
  ends_with_slash = λ s. false;
  drop_last = λ s. s;
  after_bearer = λ s. s;
  upper = λ s. s;
}

abbrev request : GatewayRequest
request = record {
  method = "GET";
  path = "/api/app/wms";
  authorization = some "Bearer h.p.sig";
  context = record { tenant_id = none; user_id = some "another" };
}

can_activate-IsGenuine_example :
    IsGenuine text jose config 6000 request
      (record { tenant_id = some "tenant"; user_id = some "user" })
unfolding can_activate read_bearer_token is_public_auth_endpoint verify read_parts has_hmac
    check_claims wrong_issuer wrong_audience
can_activate-IsGenuine_example =
    can_activate-IsGenuine text jose config 6000 request
      (record { tenant_id = some "tenant"; user_id = some "user" }) refl refl refl
