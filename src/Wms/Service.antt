-- ===== src/Wms/Service.antt =====
-- The service as a whole: a request is one call of a method of `WmsService` that writes
-- (apps/wms-service/src/wms/wms.service.ts), and a history is a list of calls. Each call comes
-- with what its surroundings supply: the other services' answers, the clock and the generated
-- ids, the headers, and the database that its reads before the transaction saw.
pub mod Guards
pub mod Writes
pub mod Audit
pub mod History
pub mod Allocations
pub mod Permissions
use multi_tenant.Base.{ℕ, ℤ, Bool, String, List, [], ◌∷◌}
use multi_tenant.Wms.Types.{Db, Env, Context}
use multi_tenant.Wms.Effects.{Result, Tx, ◌>>=◌, ◌>>◌, pure, after}
use multi_tenant.Wms.Access.{Clients}
use multi_tenant.Wms.MasterData.{
  LocationInput, ItemInput, create_warehouse, create_location, create_item,
}
use multi_tenant.Wms.Stock.{AdjustmentInput, InboundInput, adjust_inventory, confirm_inbound}
use multi_tenant.Wms.Outbound.{AllocationInput, allocate_outbound}
use multi_tenant.Wms.Packing.{
  PackingInput, PackageInput, create_outbound_packing, add_outbound_package,
  confirm_outbound_packing,
}
use multi_tenant.Wms.Shipping.{ShipmentInput, ship_outbound}
use multi_tenant.Wms.Snapshot.{SnapshotInput}
use multi_tenant.Wms.Snapshot.Generate.{generate_inventory_snapshots}

pub data Request : Type 0 where
  new_warehouse : String → String → Request
  new_location : LocationInput → Request
  new_item : ItemInput → Request
  adjust : AdjustmentInput → Request
  receive : InboundInput → Request
  allocate : AllocationInput → Request
  pack : PackingInput → Request
  add_package : ℕ → PackageInput → Request
  confirm_packing : ℕ → Request
  ship : ShipmentInput → Request
  take_snapshots : SnapshotInput → Request

pub record Call : Type 0 where
  pub clients : Clients
  pub is_short : ℤ → ℤ → ℤ → Bool
  pub env : Env
  pub context : Context
  pub seen : Db
  pub request : Request

-- Of the response only that there is one.
abbrev done : {A : Type 0} → Tx A → Tx Unit
done m = do m; pure tt

unfoldable pub perform : Clients → (ℤ → ℤ → ℤ → Bool) → Env → Context → Db → Request → Tx Unit
perform clients is_short env context seen (new_warehouse code name) =
    done (create_warehouse clients env context code name)
perform clients is_short env context seen (new_location input) =
    done (create_location clients env context input)
perform clients is_short env context seen (new_item input) =
    done (create_item clients env context input)
perform clients is_short env context seen (adjust input) =
    done (adjust_inventory clients env context input)
perform clients is_short env context seen (receive input) =
    done (confirm_inbound clients env context input)
perform clients is_short env context seen (allocate input) =
    done (allocate_outbound clients is_short env context input)
perform clients is_short env context seen (pack input) =
    done (create_outbound_packing clients env context seen input)
perform clients is_short env context seen (add_package packing_id input) =
    done (add_outbound_package clients env context seen packing_id input)
perform clients is_short env context seen (confirm_packing packing_id) =
    done (confirm_outbound_packing clients env context seen packing_id)
perform clients is_short env context seen (ship input) =
    done (ship_outbound clients env context seen input)
perform clients is_short env context seen (take_snapshots input) =
    done (generate_inventory_snapshots clients env context input)

abbrev pub handle : Call → Tx Unit
handle c = perform c.clients c.is_short c.env c.context c.seen c.request

-- The database after a call, which an exception leaves as it was, and after a history.
unfoldable pub serve : List Call → Db → Db
serve [] db = db
serve (c ∷ calls) db = serve calls (after (handle c db) db)

abbrev pub empty : Db
empty = record {
  warehouses = [];
  locations = [];
  items = [];
  balances = [];
  ledger = [];
  adjustments = [];
  receipts = [];
  orders = [];
  allocations = [];
  packings = [];
  packages = [];
  shipments = [];
  runs = [];
  snapshots = [];
  outbox = [];
}
