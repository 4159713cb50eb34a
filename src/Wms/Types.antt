-- ===== src/Wms/Types.antt =====
-- The tables of the warehouse service: apps/wms-service/prisma/schema.prisma and the rows that
-- apps/wms-service/src/wms/wms.service.ts reads and writes. An identifier is the number that its
-- UUID denotes, an instant is in milliseconds, a business date counts days, and a quantity is in
-- thousandths. The columns that no operation reads (createdAt, updatedAt, the status of master data,
-- a balance's own id) are left out.
use multi_tenant.Base.{ℕ, ℤ, String, Bool, Option, List, ◌==◌, ◌&&◌}
use multi_tenant.Outbox.{OutboxEvent}

pub data LocationType : Type 0 where
  storage receiving shipping staging : LocationType

pub data OrderStatus : Type 0 where
  draft allocated shipped cancelled : OrderStatus

pub data AllocationStatus : Type 0 where
  allocated shipped cancelled : AllocationStatus

pub data PackingStatus : Type 0 where
  packing confirmed shipped cancelled : PackingStatus

pub data MovementType : Type 0 where
  baseline adjustment inbound allocation shipment correction : MovementType

pub data SourceType : Type 0 where
  baseline inventory_adjustment inbound_receipt outbound_allocation outbound_shipment : SourceType

pub data RunMode : Type 0 where
  generate rebuild : RunMode

pub data RunStatus : Type 0 where
  running completed failed : RunStatus

-- What a stock balance is kept for.
pub record StockKey : Type 0 where
  pub tenant_id : ℕ
  pub warehouse_id : ℕ
  pub location_id : ℕ
  pub item_id : ℕ

abbrev pub same_key : StockKey → StockKey → Bool
same_key j k =
    j.tenant_id == k.tenant_id
    && (j.warehouse_id == k.warehouse_id
        && (j.location_id == k.location_id && j.item_id == k.item_id))

pub record Warehouse : Type 0 where
  pub id : ℕ
  pub tenant_id : ℕ
  pub code : String
  pub name : String

pub record Location : Type 0 where
  pub id : ℕ
  pub tenant_id : ℕ
  pub warehouse_id : ℕ
  pub code : String
  pub name : Option String
  pub type : LocationType

pub record Item : Type 0 where
  pub id : ℕ
  pub tenant_id : ℕ
  pub sku : String
  pub name : String
  pub uom : String

pub record Balance : Type 0 where
  pub key : StockKey
  pub open key use *
  pub quantity : ℤ
  pub allocated_quantity : ℤ

pub record LedgerRow : Type 0 where
  pub id : ℕ
  pub key : StockKey
  pub open key use *
  pub movement_type : MovementType
  pub source_type : SourceType
  pub source_id : Option ℕ
  pub quantity_change : ℤ
  pub allocated_quantity_change : ℤ
  pub balance_quantity_after : ℤ
  pub balance_allocated_quantity_after : ℤ
  pub effective_date : ℕ
  pub occurred_at : ℕ
  pub corrected_ledger_id : Option ℕ
  pub correction_reason : Option String
  pub request_id : String

pub record Adjustment : Type 0 where
  pub id : ℕ
  pub key : StockKey
  pub open key use *
  pub quantity_change : ℤ
  pub reason : String
  pub reference_no : Option String
  pub memo : Option String
  pub adjusted_by : Option ℕ
  pub effective_date : ℕ
  pub corrected_ledger_id : Option ℕ
  pub correction_reason : Option String

pub record Receipt : Type 0 where
  pub id : ℕ
  pub key : StockKey
  pub open key use *
  pub quantity : ℤ
  pub reference_no : Option String
  pub confirmed_by : Option ℕ
  pub confirmed_at : ℕ

pub record Order : Type 0 where
  pub id : ℕ
  pub tenant_id : ℕ
  pub warehouse_id : ℕ
  pub order_no : String
  pub status : OrderStatus
  pub shipped_at : Option ℕ

pub record Allocation : Type 0 where
  pub id : ℕ
  pub outbound_order_id : ℕ
  pub key : StockKey
  pub open key use *
  pub quantity : ℤ
  pub status : AllocationStatus
  pub allocated_by : Option ℕ
  pub allocated_at : ℕ
  pub shipped_by : Option ℕ
  pub shipped_at : Option ℕ

-- A packing with the allocation ids of its rows in `outbound_packing_allocations`, which are
-- created with it and never changed.
pub record Packing : Type 0 where
  pub id : ℕ
  pub tenant_id : ℕ
  pub outbound_order_id : ℕ
  pub warehouse_id : ℕ
  pub status : PackingStatus
  pub memo : Option String
  pub packed_by : Option ℕ
  pub confirmed_by : Option ℕ
  pub confirmed_at : Option ℕ
  pub shipped_at : Option ℕ
  pub allocation_ids : List ℕ

pub record PackageItem : Type 0 where
  pub allocation_id : ℕ
  pub item_id : ℕ
  pub quantity : ℤ

-- A package with its rows of `outbound_package_items`, which are created with it.
pub record Package : Type 0 where
  pub id : ℕ
  pub tenant_id : ℕ
  pub packing_id : ℕ
  pub package_no : String
  pub box_type : Option String
  pub weight : Option ℤ
  pub width : Option ℤ
  pub height : Option ℤ
  pub depth : Option ℤ
  pub items : List PackageItem

pub record Shipment : Type 0 where
  pub id : ℕ
  pub tenant_id : ℕ
  pub packing_id : Option ℕ
  pub allocation_id : Option ℕ
  pub outbound_order_id : ℕ
  pub warehouse_id : ℕ
  pub carrier_code : Option String
  pub tracking_no : Option String
  pub shipped_by : Option ℕ
  pub shipped_at : ℕ

pub record SnapshotRun : Type 0 where
  pub id : ℕ
  pub tenant_id : ℕ
  pub snapshot_date : ℕ
  pub snapshot_at : ℕ
  pub warehouse_id : Option ℕ
  pub mode : RunMode
  pub status : RunStatus
  pub generated_count : ℕ
  pub unchanged_count : ℕ
  pub created_by : Option ℕ
  pub request_id : String
  pub finished_at : Option ℕ

pub record Snapshot : Type 0 where
  pub id : ℕ
  pub key : StockKey
  pub open key use *
  pub snapshot_date : ℕ
  pub snapshot_at : ℕ
  pub quantity : ℤ
  pub allocated_quantity : ℤ
  pub available_quantity : ℤ
  pub source_ledger_id : Option ℕ
  pub run_id : ℕ
  pub previous_snapshot_id : Option ℕ
  pub is_current : Bool

-- The service's database. A new row is put at the front of its table.
pub record Db : Type 0 where
  pub warehouses : List Warehouse
  pub locations : List Location
  pub items : List Item
  pub balances : List Balance
  pub ledger : List LedgerRow
  pub adjustments : List Adjustment
  pub receipts : List Receipt
  pub orders : List Order
  pub allocations : List Allocation
  pub packings : List Packing
  pub packages : List Package
  pub shipments : List Shipment
  pub runs : List SnapshotRun
  pub snapshots : List Snapshot
  pub outbox : List OutboxEvent

-- Who calls: the headers of the request, whose ids are well-formed UUIDs where they are present.
pub record Context : Type 0 where
  pub tenant_id : Option ℕ
  -- whether the tenant header is spelled in lower case, as the database spells identifiers
  pub tenant_is_lower : Bool
  pub user_id : Option ℕ
  pub request_id : Option String

-- What the clock and the database generate during one call: the instant, and the ids of the rows
-- that it creates. `ledger_id` and `snapshot_id` number the rows of a loop.
pub record Env : Type 0 where
  pub now : ℕ
  pub row_id : ℕ
  pub order_id : ℕ
  pub ledger_id : ℕ → ℕ
  pub snapshot_id : ℕ → ℕ
  pub outbox_id : ℕ
  pub event_id : ℕ
