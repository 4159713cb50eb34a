-- ===== src/Gateway/Guard/Genuine.antt =====
-- What a request that the guard lets through goes on as.
use multi_tenant.Base.{
  ℕ, String, Bool, true, false, not, ◌&&◌, ◌||◌, ◌≡◌, refl, ap, sym, subst, ◌∙◌, Option, none, some,
  arith, if◌then◌else◌,
}
use multi_tenant.Gateway.Claims.{
  GatewayJwtClaims, JwtHeader, AuthError, Result, ok, err, JwtConfig, Jose, is_filled,
  algorithm_name,
}
use multi_tenant.Gateway.Verifier.{
  Parts, is_text, is_expired, wrong_issuer, wrong_audience, check_claims, read_parts, has_signature,
  checked_parts, checked_token, verify,
}
use multi_tenant.Gateway.Guard.{
  HttpText, RequestContext, GatewayRequest, differ, token_tenant, read_bearer_token,
  is_public_auth_endpoint, with_verified, with_token, can_activate,
}

-- The claims are a user's, with a tenant unless of a system administrator, and have not expired.
pub record AreCurrent (now : ℕ) (c : GatewayJwtClaims) : Type 0 where
  pub user : is_filled c.sub ≡ true
  pub tenant : (is_text "system_admin" c.user_type || is_filled c.tenant_id) ≡ true
  pub current : is_expired now c.exp ≡ false

-- The token has three parts: claims, a header that names the configured algorithm, and a signature
-- of both by the configured key.
pub record IsSigned (jose : Jose) (config : JwtConfig) (token : String) (c : GatewayJwtClaims)
    : Type 0 where
  pub parts : Parts
  pub header : JwtHeader
  pub read : read_parts (jose.split token) ≡ some parts
  pub decoded_header : jose.decode_header parts.header ≡ some header
  pub decoded_claims : jose.decode_claims parts.payload ≡ some c
  pub algorithm : is_text (algorithm_name config.algorithm) header.alg ≡ true
  pub signature : has_signature jose config config.algorithm parts ≡ true

-- The request carries a token, and goes on as its user, under the token's tenant where it has one.
pub record IsGenuine (text : HttpText) (jose : Jose) (config : JwtConfig) (now : ℕ)
    (req : GatewayRequest) (context : RequestContext) : Type 0 where
  pub token : String
  pub claims : GatewayJwtClaims
  pub bearer : read_bearer_token text jose config req.authorization ≡ ok token
  pub signed : IsSigned jose config token claims
  pub current : AreCurrent now claims
  pub user : context.user_id ≡ claims.sub
  pub tenant : context.tenant_id ≡ token_tenant claims.tenant_id req.context.tenant_id
  pub agree :
      (is_filled claims.tenant_id
        && (is_filled req.context.tenant_id && differ req.context.tenant_id claims.tenant_id))
      ≡ false

-- A check that passed, and what followed it.
passed :
    {A : Type 0} (b : Bool) (e : AuthError) (r : Result A) (x : A)
    → (if b then err e else r) ≡ ok x
    → (b ≡ false) × (r ≡ ok x)
passed true e r x h = absurd (cc h)
passed false e r x h = (refl, h)

allowed :
    {A : Type 0} (b : Bool) (e : AuthError) (r : Result A) (x : A)
    → (if b then r else err e) ≡ ok x
    → (b ≡ true) × (r ≡ ok x)
allowed true e r x h = (refl, h)
allowed false e r x h = absurd (cc h)

ok_inj : {A : Type 0} {x y : A} → ◌≡◌ {A = Result A} (ok x) (ok y) → x ≡ y
ok_inj h = cc h

and_left : (a b : Bool) → (a && b) ≡ true → a ≡ true
and_left a b h = ground (arith, h)

and_right : (a b : Bool) → (a && b) ≡ true → b ≡ true
and_right a b h = ground (arith, h)

module _ (jose : Jose) (config : JwtConfig) (now : ℕ) where
  check_claims-AreCurrent :
      (c c' : GatewayJwtClaims) → check_claims config now c ≡ ok c' → (c ≡ c') × AreCurrent now c
  unfolding check_claims
  check_claims-AreCurrent c c' h =
      let first = passed (not (is_filled c.sub && is_filled c.user_type)) _ _ c' h in
      let second =
        passed (not (is_text "system_admin" c.user_type) && not (is_filled c.tenant_id)) _ _ c'
          first.1 in
      let third = passed (is_expired now c.exp) _ _ c' second.1 in
      let fourth =
        passed (wrong_issuer config.issuer c.iss || wrong_audience config.audience c.aud) _ _ c'
          third.1 in
      (
        ok_inj fourth.1,
        record {
          user = left (is_filled c.sub) (is_filled c.user_type) first.0;
          tenant = either (is_text "system_admin" c.user_type) (is_filled c.tenant_id) second.0;
          current = third.0;
        },
      )
    where
      left : (a b : Bool) → not (a && b) ≡ false → a ≡ true
      left a b h = ground (arith, h)

      either : (a b : Bool) → (not a && not b) ≡ false → (a || b) ≡ true
      either a b h = ground (arith, h)

  -- Whose token the verifier accepts.
  verify-IsSigned :
      (token : String) (c : GatewayJwtClaims)
      → verify jose config now token ≡ ok c
      → IsSigned jose config token c × AreCurrent now c
  unfolding verify
  verify-IsSigned token c = by_parts (read_parts (jose.split token)) refl
    where
      by_claims :
          (parts : Parts) (h : Option JwtHeader) (p : Option GatewayJwtClaims)
          → read_parts (jose.split token) ≡ some parts
          → jose.decode_header parts.header ≡ h
          → jose.decode_claims parts.payload ≡ p
          → checked_parts jose config now parts h p ≡ ok c
          → IsSigned jose config token c × AreCurrent now c
      by_claims parts (some h) (some p) e eh ep r =
          let valid =
            allowed
              (is_text (algorithm_name config.algorithm) h.alg
                && has_signature jose config config.algorithm parts)
              _ _ c r in
          let current = check_claims-AreCurrent p c valid.1 in
          (
            record {
              parts = parts;
              header = h;
              read = e;
              decoded_header = eh;
              decoded_claims = ep ∙ ap some current.0;
              algorithm = and_left _ _ valid.0;
              signature = and_right _ _ valid.0;
            },
            subst (AreCurrent now) current.0 current.1,
          )
      by_claims parts none (some p) e eh ep r = absurd (cc r)
      by_claims parts (some h) none e eh ep r = absurd (cc r)
      by_claims parts none none e eh ep r = absurd (cc r)

      by_parts :
          (o : Option Parts)
          → read_parts (jose.split token) ≡ o
          → checked_token jose config now o ≡ ok c
          → IsSigned jose config token c × AreCurrent now c
      by_parts none e r = absurd (cc r)
      by_parts (some parts) e r = by_claims parts _ _ e refl refl r

-- A request with a path under /api/ that is neither public nor a login or refresh of a token, and
-- that the guard lets through, carries a token
-- with a signature of the configured algorithm and key, whose claims have not expired and name a
-- user, and a tenant unless the user is a system administrator. It goes on as that user, under the
-- token's tenant where the token has one, which the headers do not contradict.
pub can_activate-IsGenuine :
    (text : HttpText) (jose : Jose) (config : JwtConfig) (now : ℕ) (req : GatewayRequest)
    (context : RequestContext)
    → text.starts_with req.path "/api/" ≡ true
    → is_public_auth_endpoint text jose config req ≡ false
    → can_activate text jose config now false req ≡ ok context
    → IsGenuine text jose config now req context
unfolding can_activate
can_activate-IsGenuine text jose config now req context api not_login h =
    by_token (read_bearer_token text jose config req.authorization) refl
      (sym (ap result (either api not_login)) ∙ h)
  where
    result : Bool → Result RequestContext
    result b =
        if b
        then ok req.context
        else with_token text jose config now req.context
            (read_bearer_token text jose config req.authorization)

    either : {a b : Bool} → a ≡ true → b ≡ false → (not a || b) ≡ false
    either p q = cc (p, q)

    by_verdict :
        (token : String) (r : Result GatewayJwtClaims)
        → read_bearer_token text jose config req.authorization ≡ ok token
        → verify jose config now token ≡ r
        → with_verified text jose config req.context r ≡ ok context
        → IsGenuine text jose config now req context
    by_verdict token (ok c) e v g =
        let agree =
          passed
            (is_filled c.tenant_id
              && (is_filled req.context.tenant_id && differ req.context.tenant_id c.tenant_id))
            _ _ context g in
        let genuine = verify-IsSigned jose config now token c v in
        record {
          token = token;
          claims = c;
          bearer = e;
          signed = genuine.0;
          current = genuine.1;
          user = sym (ap RequestContext.user_id (ok_inj agree.1));
          tenant = sym (ap RequestContext.tenant_id (ok_inj agree.1));
          agree = agree.0;
        }
    by_verdict token (err x) e v g = absurd (cc g)

    by_token :
        (r : Result String)
        → read_bearer_token text jose config req.authorization ≡ r
        → with_token text jose config now req.context r ≡ ok context
        → IsGenuine text jose config now req context
    by_token (ok token) e g = by_verdict token _ e refl g
    by_token (err x) e g = absurd (cc g)
