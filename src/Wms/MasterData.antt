-- ===== src/Wms/MasterData.antt =====
-- Warehouses, locations and items: `createWarehouse`, `createLocation` and `createItem` of
-- apps/wms-service/src/wms/wms.service.ts.
use multi_tenant.Base.{ℕ, String, Bool, ◌&&◌, Option, none, some, List, ◌∷◌, ◌==◌, any, str_eq}
use multi_tenant.Wms.Types.{Warehouse, Location, LocationType, Item, Env, Context}
use multi_tenant.Wms.Effects.{
  warehouse_code_conflict, location_code_conflict, item_sku_conflict, Tx, ◌>>=◌, ◌>>◌, pure,
  throw_if, gets, modify,
}
use multi_tenant.Wms.Access.{Clients, authorize}
use multi_tenant.Wms.References.{ensure_warehouse}

pub record LocationInput : Type 0 where
  pub warehouse_id : ℕ
  pub code : String
  pub name : Option String
  pub type : LocationType

pub record ItemInput : Type 0 where
  pub sku : String
  pub name : String
  pub uom : String

abbrev pub has_warehouse_code : ℕ → String → List Warehouse → Bool
has_warehouse_code tenant_id code = any (λ w. w.tenant_id == tenant_id && str_eq w.code code)

abbrev pub has_location_code : ℕ → ℕ → String → List Location → Bool
has_location_code tenant_id warehouse_id code =
    any (λ l. l.tenant_id == tenant_id && (l.warehouse_id == warehouse_id && str_eq l.code code))

abbrev pub has_sku : ℕ → String → List Item → Bool
has_sku tenant_id sku = any (λ i. i.tenant_id == tenant_id && str_eq i.sku sku)

module _ (clients : Clients) (env : Env) (context : Context) where
  unfoldable pub create_warehouse : String → String → Tx Warehouse
  create_warehouse code name = do
    tenant_id ← authorize clients context "wms.warehouses.manage" none
    existing ← gets (λ db. has_warehouse_code tenant_id code db.warehouses)
    throw_if existing warehouse_code_conflict
    let created =
        let w : Warehouse = record {
          id = env.row_id;
          tenant_id = tenant_id;
          code = code;
          name = name;
        } in
        w
    modify (λ db. record db { warehouses = created ∷ db.warehouses })
    pure created

  unfoldable pub create_location : LocationInput → Tx Location
  create_location input = do
    tenant_id ← authorize clients context "wms.locations.manage" (some input.warehouse_id)
    ensure_warehouse tenant_id input.warehouse_id
    existing ← gets (λ db. has_location_code tenant_id input.warehouse_id input.code db.locations)
    throw_if existing location_code_conflict
    let created =
        let l : Location = record {
          id = env.row_id;
          tenant_id = tenant_id;
          warehouse_id = input.warehouse_id;
          code = input.code;
          name = input.name;
          type = input.type;
        } in
        l
    modify (λ db. record db { locations = created ∷ db.locations })
    pure created

  unfoldable pub create_item : ItemInput → Tx Item
  create_item input = do
    tenant_id ← authorize clients context "wms.items.manage" none
    existing ← gets (λ db. has_sku tenant_id input.sku db.items)
    throw_if existing item_sku_conflict
    let created =
        let i : Item = record {
          id = env.row_id;
          tenant_id = tenant_id;
          sku = input.sku;
          name = input.name;
          uom = input.uom;
        } in
        i
    modify (λ db. record db { items = created ∷ db.items })
    pure created
