-- ===== src/Tenant/Tenants.antt =====
-- Tenants: `create`, `update` and `updateStatus` of
-- apps/tenant-service/src/tenants/tenants.service.ts, on validated input. The reads before a
-- transaction see the database at another moment, `seen`.
use multi_tenant.Base.{
  true, ℕ, String, Bool, not, ◌&&◌, Option, none, some, List, [], ◌∷◌, ◌==◌, any, select,
  update_where, str_eq, is_some, if◌then◌else◌,
}
use multi_tenant.Json.{Json, obj, end, field, uuid, str, str_or_null}
use multi_tenant.Tenant.Types.{
  Tenant, TenantStatus, provisioning, TenantDomain, TenantSetting, TenantDb, TenantCaller,
  TenantEnv, status_name,
}
use multi_tenant.Tenant.Effects.{
  tenant_not_found, internal_error, Tx, ◌>>=◌, ◌>>◌, pure, throw_if, or_throw, gets, modify, lift,
}
use multi_tenant.Tenant.Store.{
  find_tenant, insert_tenant, insert_domain, rename_domain, record_event, tenant_event,
}
use multi_tenant.Tenant.Code.{generate_unique_tenant_code}
use multi_tenant.Tenant.Domains.{ensure_domain_available, domain_row}

pub record CreateTenantInput : Type 0 where
  pub name : String
  pub domain : Option String
  pub contact_phone : Option String

-- `contact_phone` is what `hasContactPhone` and the phone say: nothing, to be removed, or to be set.
pub record UpdateTenantInput : Type 0 where
  pub name : String
  pub domain : Option String
  pub contact_phone : Option (Option String)

abbrev pub tenant_row : TenantEnv → String → String → Tenant
tenant_row env code name = record {
  id = env.row_id;
  code = code;
  name = name;
  status = provisioning;
}

abbrev pub is_phone : ℕ → TenantSetting → Bool
is_phone tenant_id s = s.tenant_id == tenant_id && str_eq s.key "contactPhone"

abbrev pub phone_row : ℕ → String → TenantSetting
phone_row tenant_id phone = record { tenant_id = tenant_id; key = "contactPhone"; value = phone }

abbrev pub created_data : Tenant → Option String → Json
created_data t domain = obj (
    field "tenantId" (uuid t.id) (
      field "code" (str t.code) (
        field "name" (str t.name)
          (field "domain" (str_or_null domain) (field "status" (str (status_name t.status)) end)))))

unfoldable pub check_domain : TenantDb → Option String → Option ℕ → Tx Unit
check_domain seen none allowed = pure tt
check_domain seen (some domain) allowed = ensure_domain_available seen domain allowed

unfoldable pub create_domain : TenantEnv → ℕ → Option String → Tx Unit
create_domain env tenant_id none = pure tt
create_domain env tenant_id (some domain) = insert_domain (domain_row env tenant_id domain)

unfoldable pub create_phone : ℕ → Option String → Tx Unit
create_phone tenant_id none = pure tt
create_phone tenant_id (some phone) = do
  taken ← gets (λ db. any (is_phone tenant_id) db.settings)
  throw_if taken internal_error
  modify (λ db. record db { settings = phone_row tenant_id phone ∷ db.settings })

-- `candidate` is the base of the name or the domain followed by the number in four digits.
unfoldable pub create_tenant :
    (ℕ → String) → TenantEnv → TenantCaller → TenantDb → CreateTenantInput → Tx Tenant
create_tenant candidate env caller seen input = do
  check_domain seen input.domain none
  code ← lift (generate_unique_tenant_code seen candidate)
  let tenant = tenant_row env code input.name
  insert_tenant tenant
  create_domain env tenant.id input.domain
  create_phone tenant.id input.contact_phone
  record_event env 0 (
      tenant_event tenant.id (record caller { tenant_is_lower = true }) "tenant.created"
        (created_data tenant input.domain))
  pure tenant

abbrev pub last_of : {A : Type 0} → (A → Bool) → List A → Option A
last_of p [] = none
last_of p (x ∷ xs) =
    let rest = last_of p xs in if is_some rest then rest else if p x then some x else none

-- The oldest domain of the tenant.
abbrev pub primary_domain : ℕ → TenantDb → Option TenantDomain
primary_domain tenant_id db = last_of (λ d. d.tenant_id == tenant_id) db.domains

unfoldable pub move_domain : TenantEnv → ℕ → String → Option TenantDomain → Tx Unit
move_domain env tenant_id domain none = insert_domain (domain_row env tenant_id domain)
move_domain env tenant_id domain (some primary) =
    if str_eq primary.domain domain then pure tt else rename_domain primary.id domain

unfoldable pub update_domain : TenantEnv → TenantDb → ℕ → Option String → Tx Unit
update_domain env seen tenant_id none = pure tt
update_domain env seen tenant_id (some domain) =
    move_domain env tenant_id domain (primary_domain tenant_id seen)

abbrev pub phone_rows : ℕ → Option (Option String) → List TenantSetting → List TenantSetting
phone_rows tenant_id none l = l
phone_rows tenant_id (some none) l = select (λ s. not (is_phone tenant_id s)) l
phone_rows tenant_id (some (some phone)) l =
    if any (is_phone tenant_id) l
    then update_where (is_phone tenant_id) (λ s. record s { value = phone }) l
    else phone_row tenant_id phone ∷ l

unfoldable pub update_tenant : TenantEnv → TenantDb → ℕ → UpdateTenantInput → Tx Tenant
update_tenant env seen tenant_id input = do
  throw_if (not (is_some (find_tenant tenant_id seen))) tenant_not_found
  check_domain seen input.domain (some tenant_id)
  found ← gets (find_tenant tenant_id)
  tenant ← or_throw found internal_error
  modify (λ db. record db {
    tenants =
        update_where (λ t. t.id == tenant_id) (λ t. record t { name = input.name }) db.tenants;
  })
  update_domain env seen tenant_id input.domain
  modify (λ db. record db { settings = phone_rows tenant_id input.contact_phone db.settings })
  pure (record tenant { name = input.name })

abbrev pub same_status : TenantStatus → TenantStatus → Bool
same_status a b = str_eq (status_name a) (status_name b)

abbrev pub with_status : TenantStatus → Tenant → Tenant
with_status status t = record t { status = status }

unfoldable pub change_tenant_status :
    TenantEnv → TenantCaller → ℕ → TenantStatus → Option String → Tenant → Tx Tenant
change_tenant_status env caller tenant_id status reason existing =
    if same_status existing.status status then pure existing else do
      found ← gets (find_tenant tenant_id)
      tenant ← or_throw found internal_error
      modify (λ db. record db {
        tenants = update_where (λ t. t.id == tenant_id) (with_status status) db.tenants;
      })
      record_event env 0 (
          tenant_event tenant_id caller "tenant.status.changed" (
            obj (
              field "tenantId" (uuid tenant_id) (
                field "previousStatus" (str (status_name existing.status)) (
                  field "status" (str (status_name status))
                    (field "reason" (str_or_null reason) end))))))
      pure (with_status status tenant)

unfoldable pub update_tenant_status :
    TenantEnv → TenantCaller → TenantDb → ℕ → TenantStatus → Option String → Tx Tenant
update_tenant_status env caller seen tenant_id status reason = do
  existing ← or_throw (find_tenant tenant_id seen) tenant_not_found
  change_tenant_status env caller tenant_id status reason existing
