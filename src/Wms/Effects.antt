-- ===== src/Wms/Effects.antt =====
-- The transactions of the warehouse service: calls on its database that may throw.
use multi_tenant.Base.{ℕ, ℤ, String, Option, List}
use multi_tenant.Effects.{Result as ResultOf, Tx as TxOf}
use multi_tenant.Wms.Types.{Db}
use multi_tenant.Effects.Keeps.{Keeps as KeepsFrom}
use multi_tenant.Effects.Achieves.{Achieves as AchievesFrom}
use multi_tenant.Effects.Requires.{Requires as RequiresFrom}
pub use multi_tenant.Effects.{ok, err, continue, after, ◌>>◌}
unfoldable pub use multi_tenant.Effects.{◌>>=◌, pure, throw, throw_if, or_throw, gets, modify, lift}

-- The exceptions by their `code`, with what `details` holds where a test of the code decides it.
pub data WmsError : Type 0 where
  validation_failed : String → WmsError
  tenant_required tenant_not_ready permission_denied downstream_failed : WmsError
  warehouse_code_conflict location_code_conflict item_sku_conflict : WmsError
  warehouse_not_found ledger_not_found ledger_reference_mismatch insufficient_stock : WmsError
  reference_not_found : List String → WmsError
  order_warehouse_mismatch order_closed : WmsError
  allocation_not_found allocation_not_allocated : WmsError
  packing_not_found packing_already_confirmed packing_allocation_mismatch : WmsError
  packing_allocation_already_packed package_no_conflict : WmsError
  package_quantity_mismatch : Option ℕ → List (ℕ × ℤ × ℤ) → WmsError
  shipment_already_shipped shipment_not_ready : WmsError
  snapshot_not_ready snapshot_rebuild_conflict : WmsError
  -- an exception of JavaScript, which the filter answers with 500
  internal_error : WmsError

abbrev pub Result : Type 0 → Type 0
Result A = ResultOf WmsError A

abbrev pub Tx : Type 0 → Type 0
Tx A = TxOf Db WmsError A

abbrev pub Keeps : {A : Type 0} → (Db → Type 0) → Tx A → Type 0
Keeps P m = KeepsFrom P m

abbrev pub Achieves : {A : Type 0} → (Db → Type 0) → (Db → Type 0) → Tx A → Type 0
Achieves P Q m = AchievesFrom P Q m

abbrev pub Requires : {A : Type 0} → Type 0 → Tx A → Type 0
Requires Q m = RequiresFrom Q m
