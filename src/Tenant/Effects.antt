-- ===== src/Tenant/Effects.antt =====
-- The transactions of the tenant service: calls on its database that may throw.
use multi_tenant.Effects.{Result as ResultOf, Tx as TxOf}
use multi_tenant.Effects.Keeps.{Keeps as KeepsFrom}
use multi_tenant.Effects.Achieves.{Achieves as AchievesFrom}
use multi_tenant.Tenant.Types.{TenantDb}
pub use multi_tenant.Effects.{ok, err, continue, after, ◌>>◌}
unfoldable pub use multi_tenant.Effects.{◌>>=◌, pure, throw, throw_if, or_throw, gets, modify, lift}

-- The exceptions by their `code`.
pub data TenantError : Type 0 where
  tenant_not_found tenant_domain_not_found tenant_domain_conflict : TenantError
  code_generation_failed : TenantError
  -- an exception of the database, which the filter answers with 500
  internal_error : TenantError

abbrev pub Result : Type 0 → Type 0
Result A = ResultOf TenantError A

abbrev pub Tx : Type 0 → Type 0
Tx A = TxOf TenantDb TenantError A

abbrev pub Keeps : {A : Type 0} → (TenantDb → Type 0) → Tx A → Type 0
Keeps P m = KeepsFrom P m

abbrev pub Achieves : {A : Type 0} → (TenantDb → Type 0) → (TenantDb → Type 0) → Tx A → Type 0
Achieves P Q m = AchievesFrom P Q m
