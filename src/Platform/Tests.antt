-- ===== src/Platform/Tests.antt =====
-- A warehouse is created, with the answers of the other services' tables.
use multi_tenant.Base.{true, refl, none, [], ◌∷◌, str_eq}
use multi_tenant.Effects.{◌>>=◌, pure, throw_if, or_throw, gets, modify, lift, after}
use multi_tenant.Wms.Types.{Db}
use multi_tenant.Wms.Access.{authorize, require_tenant, require_user, ensure_tenant_wms_enabled}
use multi_tenant.Wms.MasterData.{create_warehouse}
use multi_tenant.Wms.Service.{new_warehouse, perform}
use multi_tenant.Wms.Tests.{opened, env, context, is_short}
use multi_tenant.Tenant.Types.{TenantDb, active}
use multi_tenant.Tenant.Modules.{get_modules}
use multi_tenant.Auth.Types.{AuthDb}
use multi_tenant.Auth.Users.{find_system_admin}
use multi_tenant.Auth.Access.{check, check_tenant_user, get_active_user_assignments, allows}
use multi_tenant.Auth.Tests.{db, user}
use multi_tenant.Platform.{clients_of}
use multi_tenant.Platform.Backed.{IsBacked, perform-IsBacked}

abbrev tenants : TenantDb
tenants = record {
  tenants = record { id = 1; code = "ACME0001"; name = "Acme"; status = active } ∷ [];
  domains = [];
  modules = record { tenant_id = 1; module_code = "wms"; enabled = true } ∷ [];
  settings = [];
  outbox = [];
}

abbrev users : AuthDb
users = record db {
  users = user 7 ∷ [];
  permissions = record { id = 41; code = "wms.warehouses.manage"; description = none } ∷ [];
  user_roles = record { id = 51; user_id = 7; role_id = 31; warehouse_id = none } ∷ [];
}

abbrev created : Db
created =
    after
      (perform (clients_of (λ l. l) (str_eq "system.all") (λ w. true) tenants users) is_short
        (env 300) context opened (new_warehouse "V" "Other") opened)
      opened

perform-IsBacked_example :
    IsBacked (str_eq "system.all") tenants users context "wms.warehouses.manage"
unfolding perform ◌>>=◌ pure throw_if or_throw gets modify lift authorize require_tenant
    require_user ensure_tenant_wms_enabled create_warehouse get_modules check find_system_admin
    check_tenant_user get_active_user_assignments allows
perform-IsBacked_example =
    perform-IsBacked (λ l. l) (str_eq "system.all") (λ w. true) tenants users is_short (env 300)
      context opened opened created (new_warehouse "V" "Other") (λ p l. refl) refl
