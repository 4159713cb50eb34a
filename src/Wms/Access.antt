-- ===== src/Wms/Access.antt =====
-- Who may do what: `authorize` and `ensureTenantWmsEnabled` of apps/wms-service/src/wms/wms.service.ts,
-- and `requireTenant` and `requireUser` of wms-utils.ts.
pub mod Granted
use multi_tenant.Base.{ℕ, String, Bool, true, Option, none, some, List, any, not, ◌||◌, str_eq}
use multi_tenant.Wms.Types.{Context}
use multi_tenant.Wms.Effects.{
  WmsError, validation_failed, tenant_required, tenant_not_ready, permission_denied, Result, Tx,
  ◌>>=◌, ◌>>◌, pure, throw_if, or_throw, lift,
}

pub record TenantModules : Type 0 where
  pub status : String
  pub enabled_modules : List String

-- The calls to tenant-service and auth-iam-service. Each may fail.
pub record Clients : Type 0 where
  -- TenantInternalClient.getTenantModules, of a tenant
  pub get_tenant_modules : ℕ → Result TenantModules
  -- AuthIamInternalClient.checkPermission, of a tenant, a user, a permission and a warehouse
  pub check_permission : ℕ → ℕ → String → Option ℕ → Result Bool

unfoldable pub require_tenant : Option ℕ → Tx ℕ
require_tenant tenant_id = or_throw tenant_id tenant_required

unfoldable pub require_user : Option ℕ → Tx ℕ
require_user user_id = or_throw user_id (validation_failed "userId")

abbrev pub wms_module_code : String
wms_module_code = "wms"

abbrev pub is_enabled : TenantModules → Bool
is_enabled m =
    not (
      not (str_eq m.status "active") || not (any (λ c. str_eq c wms_module_code) m.enabled_modules))

module _ (clients : Clients) where
  unfoldable pub ensure_tenant_wms_enabled : ℕ → Tx Unit
  ensure_tenant_wms_enabled tenant_id = do
    modules ← lift (clients.get_tenant_modules tenant_id)
    throw_if (not (is_enabled modules)) tenant_not_ready

  unfoldable pub authorize : Context → String → Option ℕ → Tx ℕ
  authorize context permission warehouse_id = do
    tenant_id ← require_tenant context.tenant_id
    user_id ← require_user context.user_id
    ensure_tenant_wms_enabled tenant_id
    allowed ← lift (clients.check_permission tenant_id user_id permission warehouse_id)
    throw_if (not allowed) permission_denied
    pure tenant_id
