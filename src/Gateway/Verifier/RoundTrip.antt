-- ===== src/Gateway/Verifier/RoundTrip.antt =====
-- What the identity service signs, the gateway accepts until it expires.
use multi_tenant.Base.{
  ℕ, ◌+◌, ◌*◌, ◌/◌, ◌<◌, String, true, false, ◌||◌, ◌≡◌, refl, ap, ◌∙◌, Option, none, some, [], ◌∷◌,
  leb, str_eq, eq_iff, arith, if◌then◌else◌,
}
use multi_tenant.Gateway.Claims.{
  Algorithm, hs256, rs256, GatewayJwtClaims, JwtHeader, token_expired, Result, ok, err, JwtConfig,
  Jose, is_filled, algorithm_name,
}
use multi_tenant.Gateway.Signer.{
  if_filled, audience_of, or_empty, issued_claims, sign_with, sign, sign_access_token,
}
use multi_tenant.Gateway.Verifier.{
  Parts, read_parts, wrong_issuer, wrong_audience, check_claims, has_hmac, has_rsa, has_signature,
  checked_token, verify,
}

-- The keys that the two services need for an algorithm, which have to belong together.
abbrev pub KeysFit : Jose → JwtConfig → Algorithm → Type 0
KeysFit jose config hs256 = is_filled config.secret ≡ true
KeysFit jose config rs256 =
    (is_filled config.private_key ≡ true)
    × (is_filled config.public_key ≡ true)
    × ((s : String)
        → jose.rsa_verify (or_empty config.public_key) s
            (jose.rsa_sign (or_empty config.private_key) s)
          ≡ true)

-- base64url makes texts that are not empty and have no dot, and JSON reads what it writes; stated for
-- one header and the claims of one token.
pub record IsFaithful (jose : Jose) (h : JwtHeader) (c : GatewayJwtClaims) : Type 0 where
  pub header : jose.decode_header (jose.encode_header h) ≡ some h
  pub claims : jose.decode_claims (jose.encode_claims c) ≡ some c
  pub header_filled : str_eq (jose.encode_header h) "" ≡ false
  pub claims_filled : str_eq (jose.encode_claims c) "" ≡ false
  pub hmac_filled : (k s : String) → str_eq (jose.hmac k s) "" ≡ false
  pub rsa_filled : (k s : String) → str_eq (jose.rsa_sign k s) "" ≡ false
  pub split_hmac :
      (k s : String)
      → jose.split
          (jose.dot (jose.dot (jose.encode_header h) (jose.encode_claims c)) (jose.hmac k s))
        ≡ jose.encode_header h ∷ jose.encode_claims c ∷ jose.hmac k s ∷ []
  pub split_rsa :
      (k s : String)
      → jose.split
          (jose.dot (jose.dot (jose.encode_header h) (jose.encode_claims c)) (jose.rsa_sign k s))
        ≡ jose.encode_header h ∷ jose.encode_claims c ∷ jose.rsa_sign k s ∷ []

str_eq_refl : (s : String) → str_eq s s ≡ true
str_eq_refl s = (eq_iff s s).1 refl

module _ (jose : Jose) (h : JwtHeader) (c : GatewayJwtClaims) (faithful : IsFaithful jose h c)
    (config : JwtConfig) where
  open faithful use {
    header, claims, header_filled, claims_filled, hmac_filled, rsa_filled, split_hmac, split_rsa,
  }

  abbrev parts_of : String → Parts
  parts_of s = record {
    header = jose.encode_header h;
    payload = jose.encode_claims c;
    signature = s;
  }

  abbrev input_of : String
  input_of = jose.dot (jose.encode_header h) (jose.encode_claims c)

  -- The signature that is made of the header and the claims.
  abbrev signature_of : Algorithm → String → String
  signature_of hs256 input = jose.hmac (or_empty config.secret) input
  signature_of rs256 input = jose.rsa_sign (or_empty config.private_key) input

  sign_with-ok :
      (a : Algorithm) (input : String)
      → KeysFit jose config a
      → sign_with jose config a input ≡ ok (jose.dot input (signature_of a input))
  sign_with-ok hs256 input key = rw key
  sign_with-ok rs256 input key = rw key.0

  read_parts-three :
      (s : String)
      → str_eq s "" ≡ false
      → read_parts (jose.encode_header h ∷ jose.encode_claims c ∷ s ∷ []) ≡ some (parts_of s)
  unfolding read_parts
  read_parts-three s filled = ground (arith, header_filled, claims_filled, filled)

  read_parts-signed :
      (a : Algorithm)
      → read_parts (jose.split (jose.dot input_of (signature_of a input_of)))
        ≡ some (parts_of (signature_of a input_of))
  read_parts-signed hs256 = ap read_parts (split_hmac _ _) ∙ read_parts-three _ (hmac_filled _ _)
  read_parts-signed rs256 = ap read_parts (split_rsa _ _) ∙ read_parts-three _ (rsa_filled _ _)

  has_hmac-own :
      (key : Option String)
      → is_filled key ≡ true
      → has_hmac jose (parts_of (jose.hmac (or_empty key) input_of)) key ≡ true
  unfolding has_hmac
  has_hmac-own none e = cc e
  has_hmac-own (some k) e = ground (arith, e, str_eq_refl (jose.hmac k input_of))

  has_rsa-own :
      (key : Option String) (s : String)
      → is_filled key ≡ true
      → jose.rsa_verify (or_empty key) input_of s ≡ true
      → has_rsa jose (parts_of s) key ≡ true
  unfolding has_rsa
  has_rsa-own none s e r = cc e
  has_rsa-own (some k) s e r = ground (arith, e, r)

  has_signature-own :
      (a : Algorithm)
      → KeysFit jose config a
      → has_signature jose config a (parts_of (signature_of a input_of)) ≡ true
  has_signature-own hs256 key = has_hmac-own config.secret key
  has_signature-own rs256 key = has_rsa-own config.public_key _ key.1 (key.2 _)

wrong_issuer-own : (o : Option String) → wrong_issuer o o ≡ false
unfolding wrong_issuer
wrong_issuer-own none = refl
wrong_issuer-own (some s) = ground (arith, str_eq_refl s)

wrong_audience-own : (o : Option String) → wrong_audience o (audience_of o) ≡ false
unfolding wrong_audience
wrong_audience-own none = refl
wrong_audience-own (some s) = ground (arith, str_eq_refl s)

is_filled-if_filled : (o : Option String) → is_filled (if_filled o) ≡ is_filled o
is_filled-if_filled none = refl
is_filled-if_filled (some s) = ground arith

module _ (config : JwtConfig) (ttl_seconds now now' : ℕ) (user_id : String)
    (tenant_id : Option String) (user_type : String) (lives : 0 < ttl_seconds)
    (has_user : str_eq user_id "" ≡ false) (has_type : str_eq user_type "" ≡ false)
    (has_tenant : (str_eq user_type "system_admin" || is_filled tenant_id) ≡ true) where
  abbrev issued : GatewayJwtClaims
  issued = issued_claims config ttl_seconds now user_id tenant_id user_type

  abbrev verdict : Result GatewayJwtClaims
  verdict = if leb ((now / 1000 + ttl_seconds) * 1000) now' then err token_expired else ok issued

  check_claims-issued : check_claims config now' issued ≡ verdict
  unfolding check_claims
  check_claims-issued = ground (
    arith,
    lives,
    has_user,
    has_type,
    has_tenant,
    is_filled-if_filled tenant_id,
    wrong_issuer-own config.issuer,
    wrong_audience-own config.audience,
  )

  -- If the two services have keys that belong together, and the issuer and the audience of one
  -- configuration, then signing returns a token for a user with a type, who is a system
  -- administrator or has a tenant; and the gateway answers it with the claims that were signed until
  -- the seconds of its life are over, and with the expiry from then on.
  pub verify-sign_access_token :
      (jose : Jose)
      → IsFaithful jose (record { alg = some (algorithm_name config.algorithm) }) issued
      → KeysFit jose config config.algorithm
      → (token : String) × (sign_access_token jose config ttl_seconds now user_id tenant_id
            user_type
          ≡ ok token)
        × (verify jose config now' token ≡ verdict)
  unfolding sign_access_token sign verify
  verify-sign_access_token jose faithful key = (
    _,
    sign_with-ok jose header issued faithful config config.algorithm input key,
    ap (checked_token jose config now')
          (read_parts-signed jose header issued faithful config config.algorithm)
        ∙ checked,
  )
    where
      header : JwtHeader
      header = record { alg = some (algorithm_name config.algorithm) }

      input : String
      input = jose.dot (jose.encode_header header) (jose.encode_claims issued)

      checked :
          checked_token jose config now' (
            some (
              parts_of jose header issued faithful config
                (signature_of jose header issued faithful config config.algorithm input)))
          ≡ verdict
      checked = rw (
        faithful.header,
        faithful.claims,
        str_eq_refl (algorithm_name config.algorithm),
        has_signature-own jose header issued faithful config config.algorithm key,
        check_claims-issued,
      )
