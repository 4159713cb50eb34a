-- ===== src/Wms/References.antt =====
-- `ensureWarehouse` and `ensureStockReferences` of apps/wms-service/src/wms/wms.service.ts.
use multi_tenant.Base.{
  ℕ, String, Bool, true, false, not, ◌&&◌, List, [], ◌∷◌, ◌==◌, any, if◌then◌else◌,
}
use multi_tenant.Wms.Types.{StockKey, Db}
use multi_tenant.Wms.Effects.{warehouse_not_found, reference_not_found, Tx, ◌>>=◌, throw_if, gets}

abbrev pub stock_key : ℕ → ℕ → ℕ → ℕ → StockKey
stock_key tenant_id warehouse_id location_id item_id = record {
  tenant_id = tenant_id;
  warehouse_id = warehouse_id;
  location_id = location_id;
  item_id = item_id;
}

abbrev pub has_warehouse : ℕ → ℕ → Db → Bool
has_warehouse tenant_id warehouse_id db =
    any (λ w. w.id == warehouse_id && w.tenant_id == tenant_id) db.warehouses

abbrev pub has_location : StockKey → Db → Bool
has_location k db =
    any
      (λ l.
        l.id == k.location_id && (l.tenant_id == k.tenant_id && l.warehouse_id == k.warehouse_id))
      db.locations

abbrev pub has_item : ℕ → ℕ → Db → Bool
has_item tenant_id item_id db = any (λ i. i.id == item_id && i.tenant_id == tenant_id) db.items

abbrev pub if_missing : Bool → String → List String → List String
if_missing b name rest = if b then rest else name ∷ rest

-- The fields of the error, one for each reference that the tenant does not have.
unfoldable pub missing_references : StockKey → Db → List String
missing_references k db = if_missing (has_warehouse k.tenant_id k.warehouse_id db) "warehouseId" (
    if_missing (has_location k db) "locationId"
      (if_missing (has_item k.tenant_id k.item_id db) "itemId" []))

abbrev pub non_empty : List String → Bool
non_empty [] = false
non_empty (x ∷ xs) = true

unfoldable pub ensure_stock_references : StockKey → Tx Unit
ensure_stock_references k = do
  fields ← gets (missing_references k)
  throw_if (non_empty fields) (reference_not_found fields)

unfoldable pub ensure_warehouse : ℕ → ℕ → Tx Unit
ensure_warehouse tenant_id warehouse_id = do
  found ← gets (has_warehouse tenant_id warehouse_id)
  throw_if (not found) warehouse_not_found
