-- ===== src/Tenant/Domains.antt =====
-- Domains: `ensureDomainAvailable`, `addDomain` and `deleteDomain` of
-- apps/tenant-service/src/tenants/tenants.service.ts, on validated input. They run in no
-- transaction: a read before the write sees the database at another moment, `seen`.
use multi_tenant.Base.{
  ℕ, String, Bool, false, not, ◌&&◌, Option, none, some, ◌==◌, find, any, update_where, is_some,
  if◌then◌else◌,
}
use multi_tenant.Tenant.Types.{
  TenantDomain, domain_pending, domain_disabled, TenantDb, TenantEnv, is_disabled,
}
use multi_tenant.Tenant.Effects.{
  tenant_not_found, tenant_domain_not_found, tenant_domain_conflict, internal_error, Tx, ◌>>=◌,
  ◌>>◌, pure, throw_if, or_throw, gets, modify,
}
use multi_tenant.Tenant.Store.{find_tenant, find_domain, insert_domain}

abbrev pub is_tenant : Option ℕ → ℕ → Bool
is_tenant none t = false
is_tenant (some a) t = t == a

-- The domain is of another tenant than the one that is allowed.
abbrev pub is_unavailable : Option ℕ → Option TenantDomain → Bool
is_unavailable allowed none = false
is_unavailable allowed (some d) = not (is_tenant allowed d.tenant_id)

unfoldable pub ensure_domain_available : TenantDb → String → Option ℕ → Tx Unit
ensure_domain_available seen domain allowed =
    throw_if (is_unavailable allowed (find_domain domain seen)) tenant_domain_conflict

unfoldable pub ensure_tenant_exists : TenantDb → ℕ → Tx Unit
ensure_tenant_exists seen tenant_id =
    throw_if (not (is_some (find_tenant tenant_id seen))) tenant_not_found

abbrev pub domain_row : TenantEnv → ℕ → String → TenantDomain
domain_row env tenant_id domain = record {
  id = env.domain_id;
  tenant_id = tenant_id;
  domain = domain;
  status = domain_pending;
}

unfoldable pub add_domain : TenantEnv → TenantDb → ℕ → String → Tx TenantDomain
add_domain env seen tenant_id domain = do
  ensure_tenant_exists seen tenant_id
  ensure_domain_available seen domain none
  insert_domain (domain_row env tenant_id domain)
  pure (domain_row env tenant_id domain)

abbrev pub disabled : TenantDomain → TenantDomain
disabled d = record d { status = domain_disabled }

unfoldable pub disable_domain : TenantDomain → Tx TenantDomain
disable_domain existing = if is_disabled existing.status then pure existing else do
  there ← gets (λ db. any (λ (d : TenantDomain). d.id == existing.id) db.domains)
  throw_if (not there) internal_error
  modify (λ db. record db { domains = update_where (λ d. d.id == existing.id) disabled db.domains })
  pure (disabled existing)

unfoldable pub delete_domain : TenantDb → ℕ → ℕ → Tx TenantDomain
delete_domain seen tenant_id domain_id = do
  ensure_tenant_exists seen tenant_id
  existing ←
      or_throw (find (λ d. d.id == domain_id && d.tenant_id == tenant_id) seen.domains)
        tenant_domain_not_found
  disable_domain existing
