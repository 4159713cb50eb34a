-- ===== src/Tenant/Modules.antt =====
-- Modules: `replaceModules` and `getModules` of apps/tenant-service/src/tenants/tenants.service.ts.
-- The requested codes have no duplicate, as the validation leaves them.
pub mod Replaced
use multi_tenant.Base.{
  ℕ, suc, ◌+◌, String, Bool, true, false, not, ◌&&◌, ◌||◌, Option, none, some, List, [], ◌∷◌, ◌==◌,
  find, any, map, select, update_where, str_eq, is_some, length, if◌then◌else◌,
}
use multi_tenant.Json.{obj, end, field, uuid, str}
use multi_tenant.Tenant.Types.{
  Tenant, TenantStatus, TenantModule, TenantDb, TenantCaller, TenantEnv,
}
use multi_tenant.Tenant.Effects.{
  tenant_not_found, Result, ok, err, Tx, ◌>>=◌, ◌>>◌, pure, gets, modify,
}
use multi_tenant.Tenant.Store.{find_tenant, record_event, tenant_event}
use multi_tenant.Tenant.Domains.{ensure_tenant_exists}

abbrev pub contains_code : String → List String → Bool
contains_code code = any (λ c. str_eq c code)

-- The row of the key.
abbrev pub is_module : ℕ → String → TenantModule → Bool
is_module tenant_id code m = m.tenant_id == tenant_id && str_eq m.module_code code

abbrev pub codes_of : List TenantModule → List String
codes_of = map (λ (m : TenantModule). m.module_code)

-- `existingEnabled`, and `currentModules` but for its order
abbrev pub enabled_codes : ℕ → TenantDb → List String
enabled_codes tenant_id db =
    codes_of (select (λ m. m.tenant_id == tenant_id && m.enabled) db.modules)

abbrev pub enabled_row : ℕ → String → TenantModule
enabled_row tenant_id code = record { tenant_id = tenant_id; module_code = code; enabled = true }

abbrev pub with_enabled : Bool → TenantModule → TenantModule
with_enabled b m = record m { enabled = b }

-- `tenantModule.upsert` with `enabled: true`
abbrev pub upsert_rows : ℕ → String → List TenantModule → List TenantModule
upsert_rows tenant_id code l =
    if any (is_module tenant_id code) l
    then update_where (is_module tenant_id code) (with_enabled true) l
    else enabled_row tenant_id code ∷ l

unfoldable pub upsert_module : ℕ → String → Tx Unit
upsert_module tenant_id code =
    modify (λ db. record db { modules = upsert_rows tenant_id code db.modules })

unfoldable pub upsert_modules : ℕ → List String → Tx Unit
upsert_modules tenant_id [] = pure tt
upsert_modules tenant_id (c ∷ cs) = do upsert_module tenant_id c; upsert_modules tenant_id cs

-- `updateMany`, which for no code changes no row
unfoldable pub disable_modules : ℕ → List String → Tx Unit
disable_modules tenant_id codes = modify (λ db. record db {
  modules =
      update_where (λ m. m.tenant_id == tenant_id && contains_code m.module_code codes)
        (with_enabled false) db.modules;
})

-- One event for each code, numbered from `n`.
unfoldable pub record_all : TenantEnv → TenantCaller → ℕ → String → ℕ → List String → Tx Unit
record_all env caller tenant_id event_type n [] = pure tt
record_all env caller tenant_id event_type n (c ∷ cs) = do
  record_event env n (
      tenant_event tenant_id caller event_type
        (obj (field "tenantId" (uuid tenant_id) (field "moduleCode" (str c) end))))
  record_all env caller tenant_id event_type (suc n) cs

-- The codes of the first list that are not in the second.
abbrev pub without : List String → List String → List String
without codes others = select (λ c. not (contains_code c others)) codes

unfoldable pub replace_modules :
    TenantEnv → TenantCaller → TenantDb → ℕ → List String → Tx (List String)
replace_modules env caller seen tenant_id requested = do
  ensure_tenant_exists seen tenant_id
  existing ← gets (enabled_codes tenant_id)
  upsert_modules tenant_id requested
  disable_modules tenant_id (without existing requested)
  record_all env caller tenant_id "tenant.module.enabled" 0 (without requested existing)
  record_all env caller tenant_id "tenant.module.disabled" (length (without requested existing))
      (without existing requested)
  gets (enabled_codes tenant_id)

-- What `getModules` answers: `order` is the database's order of the codes.
pub record TenantModulesResponse : Type 0 where
  pub tenant_id : ℕ
  pub status : TenantStatus
  pub enabled_modules : List String

abbrev pub modules_of :
    (List String → List String) → TenantDb → Option Tenant → Result TenantModulesResponse
modules_of order db none = err tenant_not_found
modules_of order db (some t) = ok (record {
  tenant_id = t.id;
  status = t.status;
  enabled_modules = order (enabled_codes t.id db);
})

unfoldable pub get_modules :
    (List String → List String) → TenantDb → ℕ → Result TenantModulesResponse
get_modules order db tenant_id = modules_of order db (find_tenant tenant_id db)
