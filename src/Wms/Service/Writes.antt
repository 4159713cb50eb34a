-- ===== src/Wms/Service/Writes.antt =====
-- What each single write keeps, every operation keeps, and every history of calls.
use multi_tenant.Base.{
  ℕ, suc, ℤ, Bool, Option, none, some, String, List, [], ◌∷◌, All, update_where, ◌==◌,
}
use multi_tenant.Outbox.{outbox_row}
use multi_tenant.Json.{Json}
use multi_tenant.Wms.Effects.{Keeps}
use multi_tenant.Wms.Types.{
  StockKey, Warehouse, Location, Item, Adjustment, Receipt, Allocation, Packing, Package, Shipment,
  SnapshotRun, Snapshot, Order, Db, Env, Context,
}
use multi_tenant.Wms.Effects.{after, modify}
use multi_tenant.Effects.Keeps.{Keeps-after, keeps_rules}
use multi_tenant.Wms.Access.{Clients}
use multi_tenant.Wms.Events.{record_event, event}
use multi_tenant.Wms.Inventory.{
  Movement, move_balance, apply_inventory_movement, apply_quantity_change, apply_allocation,
  apply_shipment,
}
use multi_tenant.Wms.MasterData.{create_warehouse, create_location, create_item}
use multi_tenant.Wms.Stock.{AdjustmentInput, InboundInput, adjust_inventory, confirm_inbound}
use multi_tenant.Wms.Outbound.{
  AllocationInput, new_order, set_order, allocation_row, allocate_outbound, use_order,
  find_or_create_outbound_order, refresh_outbound_order_status,
}
use multi_tenant.Wms.Packing.{
  set_packing, create_outbound_packing, add_outbound_package, confirm_outbound_packing,
}
use multi_tenant.Wms.Shipping.{
  set_allocation, ship_row, ShipmentDetails, ShipmentInput, ship_linked, ship_all_linked,
  ship_outbound_allocation, ship_outbound_packing, check_shipment, ship_by_ids, ship_outbound,
}
use multi_tenant.Wms.Snapshot.{SnapshotInput}
use multi_tenant.Wms.Snapshot.Generate.{generate_inventory_snapshots}
use multi_tenant.Wms.Service.Guards.{guard_rules}
use multi_tenant.Wms.Service.{
  Request, Call, new_warehouse, new_location, new_item, pack, add_package, confirm_packing, adjust,
  receive, allocate, ship, take_snapshots, perform, handle, serve,
}

-- What it takes for the operations to keep a property: that each single write keeps it. The rows
-- are those that a call with the environment and the headers creates.
pub record Writes (P : Db → Type 0) (env : Env) (context : Context) : Type 0 where
  pub moves :
      (id : ℕ) (k : StockKey) (command : Movement) → Keeps P (move_balance id env.now k command)
  pub events :
      (t : ℕ) (event_type aggregate_type : String) (id : ℕ) (payload : Json)
      → Keeps P (
          modify (λ db. record db {
            outbox =
                outbox_row "wms-service" env.outbox_id env.event_id env.now
                  (event t context event_type aggregate_type id payload)
                ∷ db.outbox;
          }))
  pub warehouse :
      (w : Warehouse) → Keeps P (modify (λ db. record db { warehouses = w ∷ db.warehouses }))
  pub location :
      (l : Location) → Keeps P (modify (λ db. record db { locations = l ∷ db.locations }))
  pub item : (i : Item) → Keeps P (modify (λ db. record db { items = i ∷ db.items }))
  pub adjustment :
      (a : Adjustment) → Keeps P (modify (λ db. record db { adjustments = a ∷ db.adjustments }))
  pub receipt : (r : Receipt) → Keeps P (modify (λ db. record db { receipts = r ∷ db.receipts }))
  pub order :
      (t w : ℕ) (order_no : String)
      → Keeps P
          (modify (λ db. record db { orders = new_order env.order_id t w order_no ∷ db.orders }))
  pub order_update : (id : ℕ) (f : Order → Order) → Keeps P (modify (set_order id f))
  pub order_refresh : (t id at : ℕ) → Keeps P (refresh_outbound_order_status t id at)
  pub allocation :
      (order_id : ℕ) (k : StockKey) (input : AllocationInput)
      → Keeps P (
          modify (λ db. record db {
            allocations = allocation_row env context order_id k input ∷ db.allocations;
          }))
  pub allocation_shipped :
      (id : ℕ) (by : Option ℕ) (at : ℕ) → Keeps P (modify (set_allocation id (ship_row by at)))
  pub packing : (p : Packing) → Keeps P (modify (λ db. record db { packings = p ∷ db.packings }))
  pub packing_update : (id : ℕ) (f : Packing → Packing) → Keeps P (modify (set_packing id f))
  pub box : (g : Package) → Keeps P (modify (λ db. record db { packages = g ∷ db.packages }))
  pub shipment :
      (x : Shipment) → Keeps P (modify (λ db. record db { shipments = x ∷ db.shipments }))
  pub run : (r : SnapshotRun) → Keeps P (modify (λ db. record db { runs = r ∷ db.runs }))
  pub run_update :
      (id : ℕ) (f : SnapshotRun → SnapshotRun)
      → Keeps P (modify (λ db. record db { runs = update_where (λ r. r.id == id) f db.runs }))
  pub snapshots : (l : List Snapshot) → Keeps P (modify (λ db. record db { snapshots = l }))

module _ {P : Db → Type 0} {env : Env} {context : Context} (writes : Writes P env context) where
  open writes use {
    moves, events, warehouse, location, item, adjustment, receipt, order, order_update,
    order_refresh, allocation, allocation_shipped, packing, packing_update, box, shipment, run,
    run_update, snapshots,
  }

  apply_inventory_movement-Stays :
      (id : ℕ) (k : StockKey) (command : Movement)
      → Keeps P (apply_inventory_movement id env.now k command)
  unfolding apply_inventory_movement
  apply_inventory_movement-Stays id k command = search (guard_rules, moves)

  record_event-Stays :
      (t : ℕ) (event_type aggregate_type : String) (id : ℕ) (payload : Json)
      → Keeps P (record_event env (event t context event_type aggregate_type id payload))
  unfolding record_event
  record_event-Stays t event_type aggregate_type id payload =
      events t event_type aggregate_type id payload

  module _ (id : ℕ) (k : StockKey) where
    apply_quantity_change-Stays :
        (command : Movement) → Keeps P (apply_quantity_change id env.now k command)
    unfolding apply_quantity_change
    apply_quantity_change-Stays command = search apply_inventory_movement-Stays

    apply_shipment-Stays :
        (q : ℤ) (command : Movement) → Keeps P (apply_shipment id env.now k q command)
    unfolding apply_shipment
    apply_shipment-Stays q command = search apply_inventory_movement-Stays

    apply_allocation-Stays :
        (is_short : ℤ → ℤ → ℤ → Bool) (q : ℤ) (command : Movement)
        → Keeps P (apply_allocation is_short id env.now k q command)
    unfolding apply_allocation
    apply_allocation-Stays is_short q command =
        search (keeps_rules, apply_inventory_movement-Stays) depth 8

  use_order-Stays :
      (t w : ℕ) (order_no : String) (o : Option Order)
      → Keeps P (use_order env.order_id t w order_no o)
  unfolding use_order
  use_order-Stays t w order_no none = search (keeps_rules, order)
  use_order-Stays t w order_no (some o) = search keeps_rules

  find_or_create_outbound_order-Stays :
      (t w : ℕ) (order_no : String)
      → Keeps P (find_or_create_outbound_order env.order_id t w order_no)
  unfolding find_or_create_outbound_order
  find_or_create_outbound_order-Stays t w order_no = search (keeps_rules, use_order-Stays)

  ruleset write_rules = (
    guard_rules, record_event-Stays, apply_quantity_change-Stays, apply_shipment-Stays,
    apply_allocation-Stays, find_or_create_outbound_order-Stays,
  )

  module _ (t at : ℕ) where
    ship_linked-Stays : (n : ℕ) (a : Allocation) → Keeps P (ship_linked env context t at n a)
    unfolding ship_linked
    ship_linked-Stays n a = search (write_rules, allocation_shipped) depth 12

    ship_all_linked-Stays :
        (n : ℕ) (l : List Allocation) → Keeps P (ship_all_linked env context t at n l)
    unfolding ship_all_linked
    ship_all_linked-Stays n [] = search keeps_rules
    ship_all_linked-Stays n (a ∷ l) =
        search (keeps_rules, ship_linked-Stays n a, ship_all_linked-Stays (suc n) l)

  module _ (clients : Clients) where
    adjust_inventory-Stays :
        (input : AdjustmentInput) → Keeps P (adjust_inventory clients env context input)
    unfolding adjust_inventory
    adjust_inventory-Stays input = search (write_rules, adjustment) depth 14

    confirm_inbound-Stays :
        (input : InboundInput) → Keeps P (confirm_inbound clients env context input)
    unfolding confirm_inbound
    confirm_inbound-Stays input = search (write_rules, receipt) depth 14

    allocate_outbound-Stays :
        (is_short : ℤ → ℤ → ℤ → Bool) (input : AllocationInput)
        → Keeps P (allocate_outbound clients is_short env context input)
    unfolding allocate_outbound
    allocate_outbound-Stays is_short input = search (write_rules, allocation, order_update) depth 20

    generate_inventory_snapshots-Stays :
        (input : SnapshotInput) → Keeps P (generate_inventory_snapshots clients env context input)
    unfolding generate_inventory_snapshots
    generate_inventory_snapshots-Stays input =
        search (write_rules, run, run_update, snapshots) depth 20

  module _ (clients : Clients) (seen : Db) where
    ship_outbound_allocation-Stays :
        (id : ℕ) (details : ShipmentDetails)
        → Keeps P (ship_outbound_allocation clients env context seen id details)
    unfolding ship_outbound_allocation
    ship_outbound_allocation-Stays id details =
        search (write_rules, shipment, allocation_shipped, order_refresh) depth 24

    ship_outbound_packing-Stays :
        (id : ℕ) (details : ShipmentDetails)
        → Keeps P (ship_outbound_packing clients env context seen id details)
    unfolding ship_outbound_packing
    ship_outbound_packing-Stays id details =
        search (write_rules, ship_all_linked-Stays, shipment, packing_update, order_refresh) depth
          28

    ship_by_ids-Stays :
        (a p : Option ℕ) (details : ShipmentDetails)
        → Keeps P (ship_by_ids clients env context seen a p details)
    unfolding ship_by_ids
    ship_by_ids-Stays a (some p) details = search (keeps_rules, ship_outbound_packing-Stays)
    ship_by_ids-Stays none none details = search keeps_rules
    ship_by_ids-Stays (some a) none details = search (keeps_rules, ship_outbound_allocation-Stays)

    ship_outbound-Stays :
        (input : ShipmentInput) → Keeps P (ship_outbound clients env context seen input)
    unfolding ship_outbound check_shipment
    ship_outbound-Stays input = search (keeps_rules, ship_by_ids-Stays)

    perform-Stays :
        (is_short : ℤ → ℤ → ℤ → Bool) (r : Request)
        → Keeps P (perform clients is_short env context seen r)
    unfolding perform create_warehouse create_location create_item create_outbound_packing
        add_outbound_package confirm_outbound_packing
    perform-Stays is_short (new_warehouse c n) = search (write_rules, warehouse) depth 20
    perform-Stays is_short (adjust i) = search (keeps_rules, adjust_inventory-Stays)
    perform-Stays is_short (receive i) = search (keeps_rules, confirm_inbound-Stays)
    perform-Stays is_short (allocate i) = search (keeps_rules, allocate_outbound-Stays)
    perform-Stays is_short (ship i) = search (keeps_rules, ship_outbound-Stays)
    perform-Stays is_short (take_snapshots i) =
        search (keeps_rules, generate_inventory_snapshots-Stays)
    perform-Stays is_short (new_location i) = search (write_rules, location) depth 20
    perform-Stays is_short (new_item i) = search (write_rules, item) depth 20
    perform-Stays is_short (pack i) = search (write_rules, packing) depth 20
    perform-Stays is_short (add_package id i) = search (write_rules, box) depth 20
    perform-Stays is_short (confirm_packing id) = search (write_rules, packing_update) depth 20

-- What every write keeps, every history keeps, if its calls allow the writes.
module _ {P : Db → Type 0} {Allowed : Call → Type 0}
    (writes : (c : Call) → Allowed c → Writes P c.env c.context) where
  pub serve_induction :
      (calls : List Call) (db : Db) → All Allowed calls → P db → P (serve calls db)
  unfolding serve
  serve_induction [] db allowed h = h
  serve_induction (c ∷ calls) db allowed h =
      serve_induction calls (after (handle c db) db) allowed.1 (
        Keeps-after (perform-Stays (writes c allowed.0) c.clients c.seen c.is_short c.request) db h)
