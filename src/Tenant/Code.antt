-- ===== src/Tenant/Code.antt =====
-- The code of a new tenant: `generateUniqueTenantCode` of
-- apps/tenant-service/src/tenants/tenants.service.ts, on the base that the domain or the name gives.
pub mod Free
use multi_tenant.Base.{
  ℕ, zero, suc, ◌+◌, String, Bool, Option, none, some, List, any, str_eq, if◌then◌else◌,
}
use multi_tenant.Tenant.Effects.{code_generation_failed, Result, ok, err}
use multi_tenant.Tenant.Types.{Tenant, TenantDb}

-- `TENANT_CODE_SEQUENCE_MAX`
abbrev pub tenant_code_sequence_max : ℕ
tenant_code_sequence_max = 9999

abbrev pub is_taken : TenantDb → String → Bool
is_taken db code = any (λ (t : Tenant). str_eq t.code code) db.tenants

-- The loop from `sequence`, for the given number of turns. `candidate` is the base followed by the
-- sequence in four digits. A taken code with another base is no candidate, so that the query by the
-- base makes no difference.
unfoldable pub first_free : (String → Bool) → (ℕ → String) → ℕ → ℕ → Option String
first_free taken candidate sequence zero = none
first_free taken candidate sequence (suc turns) =
    let rest = first_free taken candidate (suc sequence) turns in
    if taken (candidate sequence) then rest else some (candidate sequence)

abbrev pub code_or_error : Option String → Result String
code_or_error none = err code_generation_failed
code_or_error (some code) = ok code

unfoldable pub generate_unique_tenant_code : TenantDb → (ℕ → String) → Result String
generate_unique_tenant_code seen candidate =
    code_or_error (first_free (is_taken seen) candidate 1 tenant_code_sequence_max)
