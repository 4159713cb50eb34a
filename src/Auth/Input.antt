-- ===== src/Auth/Input.antt =====
-- The validation of session commands: `validateTenant` and the `validate…Command` methods of
-- apps/auth-iam-service/src/auth/auth.service.ts. A value of the body is `none` where it is not a
-- string.
use multi_tenant.Base.{
  ℕ, String, Bool, true, false, not, ◌&&◌, ◌||◌, Option, none, some, str_eq, is_some, get_or,
  if◌then◌else◌,
}
use multi_tenant.Auth.Effects.{validation_failed, tenant_mismatch, Result, ok, err}

-- The operations of the language on texts. `read_uuid` is `isUuid` together with the identifier
-- that a text denotes, which is written in the database's spelling.
pub record Text : Type 0 where
  pub trim : String → String
  pub lower : String → String
  pub read_uuid : String → Option ℕ

abbrev pub is_empty : String → Bool
is_empty s = str_eq s ""

-- A text that is there and is not empty.
abbrev pub is_truthy : Option String → Bool
is_truthy none = false
is_truthy (some s) = not (is_empty s)

pub data TenantCheck : Type 0 where
  no_tenant bad_tenant : TenantCheck
  tenant : ℕ → TenantCheck

pub record LoginCommand : Type 0 where
  pub email : Option String
  pub password : Option String
  pub tenant_id : Option String
  pub header_tenant_id : Option String

pub record RefreshCommand : Type 0 where
  pub refresh_token : Option String
  pub tenant_id : Option String
  pub header_tenant_id : Option String

pub record RevokeCommand : Type 0 where
  pub refresh_token : Option String
  pub tenant_id : Option String
  pub header_tenant_id : Option String
  pub user_id : Option String

pub record LoginInput : Type 0 where
  pub email : String
  pub password : String
  pub tenant_id : Option ℕ

pub record RefreshInput : Type 0 where
  pub refresh_token : String
  pub tenant_id : Option ℕ

pub record RevokeInput : Type 0 where
  pub refresh_token : Option String
  pub tenant_id : Option ℕ
  pub user_id : Option ℕ

-- `a ?? b`
abbrev pub or_else : Option String → Option String → Option String
or_else none b = b
or_else (some a) b = some a

abbrev pub differs : Option String → Option String → Bool
differs (some a) (some b) = not (str_eq a b)
differs _ _ = false

abbrev pub is_bad : TenantCheck → Bool
is_bad bad_tenant = true
is_bad no_tenant = false
is_bad (tenant t) = false

abbrev pub tenant_of : TenantCheck → Option ℕ
tenant_of (tenant t) = some t
tenant_of no_tenant = none
tenant_of bad_tenant = none

abbrev pub trim_or : Text → Option String → String
trim_or text none = ""
trim_or text (some s) = text.trim s

abbrev pub trim_each : Text → Option String → Option String
trim_each text none = none
trim_each text (some s) = some (text.trim s)

abbrev pub lower_or : Text → Option String → String
lower_or text none = ""
lower_or text (some s) = text.lower (text.trim s)

abbrev pub of_uuid : Option ℕ → TenantCheck
of_uuid none = bad_tenant
of_uuid (some t) = tenant t

-- The last part of `validateTenant`, on `bodyTenant ?? headerTenantId`.
abbrev pub check_tenant : Text → Option String → TenantCheck
check_tenant text none = no_tenant
check_tenant text (some s) = if is_empty s then no_tenant else of_uuid (text.read_uuid s)

unfoldable pub validate_tenant : Text → Option String → Option String → Result TenantCheck
validate_tenant text body_tenant_id header_tenant_id =
    let body_tenant = trim_each text body_tenant_id in
    if is_truthy body_tenant && (is_truthy header_tenant_id && differs body_tenant header_tenant_id)
    then err (tenant_mismatch "body_header")
    else ok (check_tenant text (or_else body_tenant header_tenant_id))

-- Of the fields that are wrong the error keeps only that there is one.
unfoldable pub checked :
    {A : Type 0} → Result TenantCheck → (TenantCheck → Bool) → (TenantCheck → A) → Result A
checked (err e) wrong input = err e
checked (ok t) wrong input = if wrong t then err validation_failed else ok (input t)

unfoldable pub validate_login : Text → LoginCommand → Result LoginInput
validate_login text command =
    checked (validate_tenant text command.tenant_id command.header_tenant_id)
      (λ t.
        is_bad t
        || (is_empty (lower_or text command.email) || is_empty (get_or command.password "")))
      (λ t. record {
        email = lower_or text command.email;
        password = get_or command.password "";
        tenant_id = tenant_of t;
      })

unfoldable pub validate_refresh : Text → RefreshCommand → Result RefreshInput
validate_refresh text command =
    checked (validate_tenant text command.tenant_id command.header_tenant_id)
      (λ t. is_bad t || is_empty (trim_or text command.refresh_token))
      (λ t. record { refresh_token = trim_or text command.refresh_token; tenant_id = tenant_of t })

-- `command.userId` is a header: an absent or empty one is not checked.
abbrev pub read_user : Text → Option String → Option ℕ
read_user text none = none
read_user text (some s) = if is_empty s then none else text.read_uuid s

unfoldable pub validate_revoke : Text → RevokeCommand → Result RevokeInput
validate_revoke text command =
    checked (validate_tenant text command.tenant_id command.header_tenant_id)
      (λ t.
        is_bad t || (is_truthy command.user_id && not (is_some (read_user text command.user_id))))
      (λ t. record {
        refresh_token = trim_each text command.refresh_token;
        tenant_id = tenant_of t;
        user_id = read_user text command.user_id;
      })
