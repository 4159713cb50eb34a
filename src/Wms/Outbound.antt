-- ===== src/Wms/Outbound.antt =====
-- Outbound orders and allocations: `allocateOutbound`, `findOrCreateOutboundOrder` and
-- `refreshOutboundOrderStatus` of apps/wms-service/src/wms/wms.service.ts.
pub mod Reserve
use multi_tenant.Base.{
  ℕ, zero, ℤ, pos, String, Bool, true, false, not, ◌&&◌, ◌||◌, Option, none, some, List, [], ◌∷◌,
  ◌==◌, find, any, update_where, str_eq, if◌then◌else◌,
}
use multi_tenant.Json.{Json, obj, end, field, uuid, str, fixed}
use multi_tenant.Wms.Types.{
  StockKey, Order, OrderStatus, Allocation, AllocationStatus, Db, Env, Context, allocation,
  outbound_allocation,
}
use multi_tenant.Wms.Effects.{
  order_warehouse_mismatch, order_closed, Result, Tx, ◌>>=◌, ◌>>◌, pure, throw_if, gets, modify,
}
use multi_tenant.Wms.Access.{Clients, authorize}
use multi_tenant.Wms.References.{stock_key, ensure_stock_references}
use multi_tenant.Wms.Events.{record_event, event}
use multi_tenant.Wms.Calendar.{business_date}
use multi_tenant.Wms.Inventory.{Movement, apply_allocation}

pub record AllocationInput : Type 0 where
  pub order_no : String
  pub warehouse_id : ℕ
  pub location_id : ℕ
  pub item_id : ℕ
  pub quantity : ℤ

abbrev pub is_closed : OrderStatus → Bool
is_closed OrderStatus.draft = false
is_closed OrderStatus.allocated = false
is_closed OrderStatus.shipped = true
is_closed OrderStatus.cancelled = true

abbrev pub new_order : ℕ → ℕ → ℕ → String → Order
new_order id tenant_id warehouse_id order_no = record {
  id = id;
  tenant_id = tenant_id;
  warehouse_id = warehouse_id;
  order_no = order_no;
  status = OrderStatus.allocated;
  shipped_at = none;
}

-- `outboundOrder.findUnique` by the tenant and the number
abbrev pub find_order : ℕ → String → List Order → Option Order
find_order tenant_id order_no = find (λ o. o.tenant_id == tenant_id && str_eq o.order_no order_no)

-- The two branches of `findOrCreateOutboundOrder`, on what was found.
unfoldable pub use_order : ℕ → ℕ → ℕ → String → Option Order → Tx Order
use_order id tenant_id warehouse_id order_no (some existing) = do
  throw_if (not (existing.warehouse_id == warehouse_id)) order_warehouse_mismatch
  throw_if (is_closed existing.status) order_closed
  pure existing
use_order id tenant_id warehouse_id order_no none = do
  modify (λ db. record db { orders = new_order id tenant_id warehouse_id order_no ∷ db.orders })
  pure (new_order id tenant_id warehouse_id order_no)

unfoldable pub find_or_create_outbound_order : ℕ → ℕ → ℕ → String → Tx Order
find_or_create_outbound_order id tenant_id warehouse_id order_no = do
  existing ← gets (λ db. find_order tenant_id order_no db.orders)
  use_order id tenant_id warehouse_id order_no existing

-- `outboundOrder.update` of an id
abbrev pub set_order : ℕ → (Order → Order) → Db → Db
set_order id f db = record db { orders = update_where (λ o. o.id == id) f db.orders }

abbrev pub is_allocated : AllocationStatus → Bool
is_allocated AllocationStatus.allocated = true
is_allocated AllocationStatus.shipped = false
is_allocated AllocationStatus.cancelled = false

-- Some allocation of the order is still allocated: the `count` is positive.
abbrev pub has_remaining : ℕ → ℕ → Db → Bool
has_remaining tenant_id order_id db =
    any
      (λ a. a.tenant_id == tenant_id && (a.outbound_order_id == order_id && is_allocated a.status))
      db.allocations

unfoldable pub refresh_outbound_order_status : ℕ → ℕ → ℕ → Tx Unit
refresh_outbound_order_status tenant_id order_id shipped_at = modify (λ db.
    if has_remaining tenant_id order_id db
    then db
    else set_order order_id
        (λ o. record o { status = OrderStatus.shipped; shipped_at = some shipped_at }) db)

abbrev pub allocation_row : Env → Context → ℕ → StockKey → AllocationInput → Allocation
allocation_row env context order_id k input = record {
  id = env.row_id;
  outbound_order_id = order_id;
  key = k;
  quantity = input.quantity;
  status = AllocationStatus.allocated;
  allocated_by = context.user_id;
  allocated_at = env.now;
  shipped_by = none;
  shipped_at = none;
}

abbrev pub allocation_movement : Env → Context → Movement
allocation_movement env context = record {
  movement_type = allocation;
  source_type = outbound_allocation;
  source_id = some env.row_id;
  quantity_change = pos 0;
  allocated_quantity_change = pos 0;
  effective_date = business_date env.now;
  request_id = context.request_id;
  corrected_ledger_id = none;
  correction_reason = none;
}

abbrev pub allocation_data : Env → Order → AllocationInput → Json
allocation_data env order input = obj (
    field "allocationId" (uuid env.row_id) (
      field "outboundOrderId" (uuid order.id) (
        field "orderNo" (str order.order_no) (
          field "warehouseId" (uuid input.warehouse_id) (
            field "locationId" (uuid input.location_id) (
              field "itemId" (uuid input.item_id)
                (field "quantity" (fixed input.quantity) end)))))))

module _ (clients : Clients) (is_short : ℤ → ℤ → ℤ → Bool) (env : Env) (context : Context) where
  unfoldable pub allocate_outbound : AllocationInput → Tx Allocation
  allocate_outbound input = do
    tenant_id ← authorize clients context "wms.outbound.allocate" (some input.warehouse_id)
    let k = stock_key tenant_id input.warehouse_id input.location_id input.item_id
    ensure_stock_references k
    order ← find_or_create_outbound_order env.order_id tenant_id input.warehouse_id input.order_no
    let created = allocation_row env context order.id k input
    modify (λ db. record db { allocations = created ∷ db.allocations })
    apply_allocation is_short (env.ledger_id 0) env.now k input.quantity
        (allocation_movement env context)
    modify (set_order order.id (λ o. record o { status = OrderStatus.allocated }))
    record_event env (
        event tenant_id context "wms.outbound.allocated" "outbound_allocation" env.row_id
          (allocation_data env order input))
    pure created
