-- ===== src/Tenant/Store.antt =====
-- Queries and statements on the tenant service's tables, with the keys that
-- apps/tenant-service/prisma/schema.prisma declares, and its outbox call.
use multi_tenant.Base.{
  ℕ, String, not, ◌&&◌, Option, none, ◌∷◌, ◌==◌, find, any, update_where, str_eq, is_some,
}
use multi_tenant.Json.{Json}
use multi_tenant.Outbox.{OutboxEventCommand, outbox_row}
use multi_tenant.Tenant.Types.{Tenant, TenantDomain, TenantDb, TenantCaller, TenantEnv}
use multi_tenant.Tenant.Effects.{internal_error, Tx, ◌>>=◌, ◌>>◌, throw_if, gets, modify}

abbrev pub find_tenant : ℕ → TenantDb → Option Tenant
find_tenant id db = find (λ t. t.id == id) db.tenants

-- `tenantDomain.findUnique` by the domain, which is unique over all tenants
abbrev pub find_domain : String → TenantDb → Option TenantDomain
find_domain domain db = find (λ d. str_eq d.domain domain) db.domains

-- `INSERT` of a tenant: its code is unique.
unfoldable pub insert_tenant : Tenant → Tx Unit
insert_tenant tenant = do
  taken ← gets (λ db. any (λ (t : Tenant). str_eq t.code tenant.code) db.tenants)
  throw_if taken internal_error
  modify (λ db. record db { tenants = tenant ∷ db.tenants })

-- `INSERT` of a domain: it is unique, and its tenant exists.
unfoldable pub insert_domain : TenantDomain → Tx Unit
insert_domain row = do
  taken ← gets (find_domain row.domain)
  throw_if (is_some taken) internal_error
  owner ← gets (find_tenant row.tenant_id)
  throw_if (not (is_some owner)) internal_error
  modify (λ db. record db { domains = row ∷ db.domains })

-- `UPDATE` of the domain of an id to another text: it stays unique.
unfoldable pub rename_domain : ℕ → String → Tx Unit
rename_domain id domain = do
  taken ←
      gets (λ db. any (λ (d : TenantDomain). not (d.id == id) && str_eq d.domain domain) db.domains)
  throw_if taken internal_error
  modify (λ db. record db {
    domains = update_where (λ d. d.id == id) (λ d. record d { domain = domain }) db.domains;
  })

-- `OutboxEventService.record`, the call's event of the number
unfoldable pub record_event : TenantEnv → ℕ → OutboxEventCommand → Tx Unit
record_event env n command = modify (λ db. record db {
  outbox =
      outbox_row "tenant-service" (env.outbox_id n) (env.event_id n) env.now command ∷ db.outbox;
})

abbrev pub tenant_event : ℕ → TenantCaller → String → Json → OutboxEventCommand
tenant_event tenant_id caller event_type payload_data = record {
  context = record {
    tenant_id = record { value = tenant_id; is_lower = caller.tenant_is_lower };
    user_id = caller.user_id;
    request_id = caller.request_id;
  };
  event_type = event_type;
  aggregate_type = "tenant";
  aggregate_id = tenant_id;
  payload_data = payload_data;
  schema_version = none;
}
