-- ===== src/Wms/Service/Guards.antt =====
-- The checks of the operations write nothing, so they keep everything.
use multi_tenant.Base.{ℕ, Option, none, some, String, List, [], ◌∷◌}
use multi_tenant.Wms.Effects.{Keeps}
use multi_tenant.Wms.Types.{StockKey, Allocation, Package, Db, Context}
use multi_tenant.Effects.Keeps.{Keeps-modify, Keeps-after, keeps_rules}
use multi_tenant.Wms.Access.{
  Clients, require_tenant, require_user, ensure_tenant_wms_enabled, authorize,
}
use multi_tenant.Wms.References.{ensure_stock_references, ensure_warehouse}
use multi_tenant.Wms.Inventory.{ensure_corrected_ledger_reference}
use multi_tenant.Wms.Packing.{assert_packable_allocations, assert_same_scope}
use multi_tenant.Wms.Packing.Quantities.{assert_packing_quantities_match}
use multi_tenant.Wms.Snapshot.Generate.{check_warehouse}

-- Each check keeps every property of the database.
module _ {P : Db → Type 0} where
  pub authorize-Keeps :
      (clients : Clients) (context : Context) (permission : String) (w : Option ℕ)
      → Keeps P (authorize clients context permission w)
  unfolding authorize ensure_tenant_wms_enabled require_tenant require_user
  authorize-Keeps clients context permission w = search keeps_rules depth 8

  pub require_tenant-Keeps : (tenant_id : Option ℕ) → Keeps P (require_tenant tenant_id)
  unfolding require_tenant
  require_tenant-Keeps tenant_id = search keeps_rules

  pub ensure_stock_references-Keeps : (k : StockKey) → Keeps P (ensure_stock_references k)
  unfolding ensure_stock_references
  ensure_stock_references-Keeps k = search keeps_rules

  pub ensure_warehouse-Keeps : (t w : ℕ) → Keeps P (ensure_warehouse t w)
  unfolding ensure_warehouse
  ensure_warehouse-Keeps t w = search keeps_rules

  pub check_warehouse-Keeps : (t : ℕ) (w : Option ℕ) → Keeps P (check_warehouse t w)
  unfolding check_warehouse
  check_warehouse-Keeps t none = search keeps_rules
  check_warehouse-Keeps t (some w) = search ensure_warehouse-Keeps

  pub assert_same_scope-Keeps :
      (allocations : List Allocation) (o : Option ℕ) → Keeps P (assert_same_scope allocations o)
  unfolding assert_same_scope
  assert_same_scope-Keeps [] o = search keeps_rules
  assert_same_scope-Keeps (a ∷ rest) o = search keeps_rules

  pub assert_packable_allocations-Keeps :
      (allocations : List Allocation) (ids : List ℕ) (o : Option ℕ)
      → Keeps P (assert_packable_allocations allocations ids o)
  unfolding assert_packable_allocations
  assert_packable_allocations-Keeps allocations ids o =
      search (keeps_rules, assert_same_scope-Keeps)

pub assert_packing_quantities_match-Keeps :
    {P : Db → Type 0} (linked : List Allocation) (packages : List Package)
    → Keeps P (assert_packing_quantities_match linked packages)
unfolding assert_packing_quantities_match
assert_packing_quantities_match-Keeps linked packages = search keeps_rules

pub ensure_corrected_ledger_reference-Keeps :
    {P : Db → Type 0} (k : StockKey) (ref : Option ℕ)
    → Keeps P (ensure_corrected_ledger_reference k ref)
unfolding ensure_corrected_ledger_reference
ensure_corrected_ledger_reference-Keeps k none = search keeps_rules
ensure_corrected_ledger_reference-Keeps k (some i) = search keeps_rules

pub ruleset guard_rules = (
  keeps_rules, authorize-Keeps, require_tenant-Keeps, ensure_stock_references-Keeps,
  ensure_warehouse-Keeps, check_warehouse-Keeps, assert_packable_allocations-Keeps,
  assert_packing_quantities_match-Keeps, ensure_corrected_ledger_reference-Keeps,
)
