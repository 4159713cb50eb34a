-- ===== src/Tenant/Tests.antt =====
-- A tenant's modules are replaced.
use multi_tenant.Base.{
  ℕ, ◌+◌, ◌==◌, String, true, ◌≡◌, ◌⊎◌, refl, none, some, [], ◌∷◌, if◌then◌else◌,
}
use multi_tenant.Effects.{◌>>=◌, pure, throw_if, gets, modify, after}
use multi_tenant.Tenant.Types.{TenantDb, TenantEnv, TenantCaller, active}
use multi_tenant.Tenant.Effects.{ok, err, code_generation_failed}
use multi_tenant.Tenant.Store.{record_event}
use multi_tenant.Tenant.Domains.{ensure_tenant_exists}
use multi_tenant.Tenant.Modules.{
  contains_code, upsert_module, upsert_modules, disable_modules, record_all, replace_modules,
}
use multi_tenant.Tenant.Modules.Replaced.{has_enabled, replace_modules-has_enabled}
use multi_tenant.Tenant.Code.{is_taken, tenant_code_sequence_max, generate_unique_tenant_code}
use multi_tenant.Tenant.Code.Free.{IsFirstFree, AllTaken, generate_unique_tenant_code-IsFirstFree}

abbrev db : TenantDb
db = record {
  tenants = record { id = 1; code = "ACME0001"; name = "Acme"; status = active } ∷ [];
  domains = [];
  modules = record { tenant_id = 1; module_code = "mes"; enabled = true } ∷ [];
  settings = [];
  outbox = [];
}

abbrev env : TenantEnv
env = record {
  now = 1000;
  row_id = 2;
  domain_id = 3;
  outbox_id = λ n. n + 4;
  event_id = λ n. n + 4;
}

abbrev caller : TenantCaller
caller = record { tenant_is_lower = true; user_id = some 7; request_id = none }

abbrev replaced : TenantDb
replaced = after (replace_modules env caller db 1 ("wms" ∷ []) db) db

replace_modules-has_enabled_example :
    has_enabled 1 "mes" replaced.modules
    ≡ (if 1 == 1 then contains_code "mes" ("wms" ∷ []) else has_enabled 1 "mes" db.modules)
unfolding replace_modules ensure_tenant_exists upsert_modules upsert_module disable_modules
    record_all record_event ◌>>=◌ pure throw_if gets modify
replace_modules-has_enabled_example =
    replace_modules-has_enabled env caller db db replaced 1 1 ("wms" ∷ []) ("wms" ∷ []) "mes" refl

abbrev codes : ℕ → String
codes n = if n == 1 then "ACME0001" else "ACME0002"

generate_unique_tenant_code-IsFirstFree_example :
    ((d : ℕ) × IsFirstFree (is_taken db) codes 1 tenant_code_sequence_max d
      × (generate_unique_tenant_code db codes ≡ ok (codes (1 + d))))
    ⊎ ((generate_unique_tenant_code db codes ≡ err code_generation_failed)
        × AllTaken (is_taken db) codes 1 tenant_code_sequence_max)
generate_unique_tenant_code-IsFirstFree_example = generate_unique_tenant_code-IsFirstFree db codes
