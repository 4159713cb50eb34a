-- ===== src/Tenant/Types.antt =====
-- The tables of the tenant service, as in apps/tenant-service/prisma/schema.prisma, and what a call
-- gets from its surroundings. Rows are listed from the newest to the oldest.
use multi_tenant.Base.{ℕ, String, Bool, true, false, Option, List}
use multi_tenant.Outbox.{OutboxEvent}

pub data TenantStatus : Type 0 where
  provisioning active suspended deleted : TenantStatus

pub data TenantDomainStatus : Type 0 where
  domain_pending domain_active domain_disabled : TenantDomainStatus

pub record Tenant : Type 0 where
  pub id : ℕ
  pub code : String
  pub name : String
  pub status : TenantStatus

pub record TenantDomain : Type 0 where
  pub id : ℕ
  pub tenant_id : ℕ
  pub domain : String
  pub status : TenantDomainStatus

pub record TenantModule : Type 0 where
  pub tenant_id : ℕ
  pub module_code : String
  pub enabled : Bool

pub record TenantSetting : Type 0 where
  pub tenant_id : ℕ
  pub key : String
  pub value : String

pub record TenantDb : Type 0 where
  pub tenants : List Tenant
  pub domains : List TenantDomain
  pub modules : List TenantModule
  pub settings : List TenantSetting
  pub outbox : List OutboxEvent

-- The caller's user and the request, from the headers, and whether the tenant in the path is spelled
-- in lower case, as the database spells identifiers.
pub record TenantCaller : Type 0 where
  pub tenant_is_lower : Bool
  pub user_id : Option ℕ
  pub request_id : Option String

-- The clock and the generated ids, those of outbox rows by their number in the call.
pub record TenantEnv : Type 0 where
  pub now : ℕ
  pub row_id : ℕ
  pub domain_id : ℕ
  pub outbox_id : ℕ → ℕ
  pub event_id : ℕ → ℕ

abbrev pub status_name : TenantStatus → String
status_name provisioning = "provisioning"
status_name active = "active"
status_name suspended = "suspended"
status_name deleted = "deleted"

abbrev pub is_disabled : TenantDomainStatus → Bool
is_disabled domain_disabled = true
is_disabled domain_pending = false
is_disabled domain_active = false
