-- ===== src/Platform.antt =====
-- The three services together: the clients of the warehouse service
-- (apps/wms-service/src/internal-clients), answered by the tenant service's `getModules` and the
-- identity service's `check`, each on the database that it has at the time of the call.
pub mod Backed
pub mod Tests
use multi_tenant.Base.{ℕ, String, Bool, Option, none, some, List}
use multi_tenant.Uuid.{UuidText}
use multi_tenant.Wms.Effects.{WmsError, downstream_failed}
use multi_tenant.Effects.{Result, ok, err}
use multi_tenant.Wms.Access.{TenantModules, Clients}
use multi_tenant.Tenant.Types.{TenantDb, status_name}
use multi_tenant.Tenant.Effects.{TenantError}
use multi_tenant.Tenant.Modules.{TenantModulesResponse, get_modules}
use multi_tenant.Auth.Types.{AuthDb}
use multi_tenant.Auth.Effects.{AuthError}
use multi_tenant.Auth.Access.{check}

-- `throwUpstreamError` of internal-http-client.ts: the other service's error becomes one of the caller.
abbrev pub modules_answer : Result TenantError TenantModulesResponse → Result WmsError TenantModules
modules_answer (ok r) =
    ok (record { status = status_name r.status; enabled_modules = r.enabled_modules })
modules_answer (err e) = err downstream_failed

abbrev pub permission_answer : Result AuthError Bool → Result WmsError Bool
permission_answer (ok b) = ok b
permission_answer (err e) = err downstream_failed

-- `scope.warehouseId`, of which a function tells whether the request spells it in lower case.
abbrev pub warehouse_text : (ℕ → Bool) → Option ℕ → Option UuidText
warehouse_text spelled_lower none = none
warehouse_text spelled_lower (some w) = some (record { value = w; is_lower = spelled_lower w })

-- `TenantInternalClient.getTenantModules` and `AuthIamInternalClient.checkPermission`.
abbrev pub clients_of :
    (List String → List String) → (String → Bool) → (ℕ → Bool) → TenantDb → AuthDb → Clients
clients_of order is_system_code spelled_lower tenants users = record {
  get_tenant_modules = λ tenant. modules_answer (get_modules order tenants tenant);
  check_permission = λ tenant user permission warehouse. permission_answer (
      check is_system_code users (some tenant) user permission
        (warehouse_text spelled_lower warehouse));
}
