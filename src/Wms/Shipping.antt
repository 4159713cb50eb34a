-- ===== src/Wms/Shipping.antt =====
-- Shipping: `shipOutbound` with its two branches, `shipOutboundAllocation` and
-- `shipOutboundPacking`, of apps/wms-service/src/wms/wms.service.ts. The scope is read before the
-- transaction: `seen` is the database at that time, of which nothing is assumed.
pub mod Branches
pub mod Loop
pub mod Once
pub mod Releases
pub mod Settled
use multi_tenant.Base.{
  ℕ, suc, ℤ, pos, String, Bool, true, false, not, ◌&&◌, Option, none, some, List, [], ◌∷◌, map,
  ◌==◌, find, update_where, get_or, is_some, ◌||◌, ◌⊎◌, inl, inr, length, if◌then◌else◌,
}
use multi_tenant.Json.{
  Json, obj, arr, end, field, uuid, uuids, str, str_or_null, num, fixed, decimal, instant,
}
use multi_tenant.Wms.Types.{
  Allocation, AllocationStatus, Packing, PackingStatus, Package, Shipment, Db, Env, Context,
  shipment, outbound_shipment,
}
use multi_tenant.Wms.Effects.{
  WmsError, validation_failed, allocation_not_found, allocation_not_allocated, packing_not_found,
  shipment_already_shipped, shipment_not_ready, Result, Tx, ◌>>=◌, ◌>>◌, pure, throw_if, or_throw,
  gets, modify, throw,
}
use multi_tenant.Wms.Access.{Clients, authorize, require_tenant}
use multi_tenant.Wms.Events.{record_event, event}
use multi_tenant.Wms.Calendar.{business_date}
use multi_tenant.Wms.Inventory.{Movement, apply_shipment}
use multi_tenant.Wms.Outbound.{is_allocated, refresh_outbound_order_status}
use multi_tenant.Wms.Packing.{
  find_packing, linked_allocations, packages_of, order_no_of, set_packing,
}
use multi_tenant.Wms.Packing.Quantities.{total_packed_quantity}

-- The optional fields of a shipment request.
pub record ShipmentDetails : Type 0 where
  pub carrier_code : Option String
  pub tracking_no : Option String
  pub shipped_at : Option ℕ

pub record ShipmentInput : Type 0 where
  pub allocation_id : Option ℕ
  pub packing_id : Option ℕ
  pub details : ShipmentDetails

-- `outboundAllocation.findFirst` of the id, within the tenant
abbrev pub find_allocation : ℕ → ℕ → Db → Option Allocation
find_allocation tenant_id id db = find (λ a. a.id == id && a.tenant_id == tenant_id) db.allocations

-- `outboundAllocation.update` of an id, to shipped
abbrev pub ship_row : Option ℕ → ℕ → Allocation → Allocation
ship_row shipped_by shipped_at a = record a {
  status = AllocationStatus.shipped;
  shipped_by = shipped_by;
  shipped_at = some shipped_at;
}

abbrev pub set_allocation : ℕ → (Allocation → Allocation) → Db → Db
set_allocation id f db = record db { allocations = update_where (λ a. a.id == id) f db.allocations }

abbrev pub shipment_movement : Env → Context → ℕ → Movement
shipment_movement env context shipped_at = record {
  movement_type = shipment;
  source_type = outbound_shipment;
  source_id = some env.row_id;
  quantity_change = pos 0;
  allocated_quantity_change = pos 0;
  effective_date = business_date shipped_at;
  request_id = context.request_id;
  corrected_ledger_id = none;
  correction_reason = none;
}

abbrev pub is_shipped : AllocationStatus → Bool
is_shipped AllocationStatus.shipped = true
is_shipped AllocationStatus.allocated = false
is_shipped AllocationStatus.cancelled = false

abbrev pub is_shipped_packing : PackingStatus → Bool
is_shipped_packing PackingStatus.shipped = true
is_shipped_packing PackingStatus.packing = false
is_shipped_packing PackingStatus.confirmed = false
is_shipped_packing PackingStatus.cancelled = false

abbrev pub is_confirmed : PackingStatus → Bool
is_confirmed PackingStatus.confirmed = true
is_confirmed PackingStatus.packing = false
is_confirmed PackingStatus.shipped = false
is_confirmed PackingStatus.cancelled = false

abbrev pub allocation_shipped_data : ShipmentDetails → ℕ → Db → Allocation → Json
allocation_shipped_data details shipped_at db a = obj (
    field "allocationId" (uuid a.id) (
      field "outboundOrderId" (uuid a.outbound_order_id) (
        field "orderNo" (order_no_of db a.outbound_order_id) (
          field "warehouseId" (uuid a.warehouse_id) (
            field "locationId" (uuid a.location_id) (
              field "itemId" (uuid a.item_id) (
                field "quantity" (decimal a.quantity) (
                  field "carrierCode" (str_or_null details.carrier_code) (
                    field "trackingNo" (str_or_null details.tracking_no)
                      (field "shippedAt" (instant shipped_at) end))))))))))

abbrev pub packing_shipped_data : Env → ShipmentDetails → ℕ → Db → Packing → Json
packing_shipped_data env details shipped_at db p = obj (
    field "shipmentId" (uuid env.row_id) (
      field "packingId" (uuid p.id) (
        field "outboundOrderId" (uuid p.outbound_order_id) (
          field "orderNo" (order_no_of db p.outbound_order_id) (
            field "warehouseId" (uuid p.warehouse_id) (
              field "allocationIds" (arr (uuids p.allocation_ids)) (
                field "packageIds" (arr (uuids (map (λ (g : Package). g.id) (packages_of db p.id))))
                  (field "packageCount" (num (length (packages_of db p.id))) (
                    field "totalQuantity" (fixed (total_packed_quantity (packages_of db p.id))) (
                      field "carrierCode" (str_or_null details.carrier_code) (
                        field "trackingNo" (str_or_null details.tracking_no)
                          (field "shippedAt" (instant shipped_at) end))))))))))))

module _ (env : Env) (context : Context) where
  abbrev pub shipment_row : ℕ → Option ℕ → Option ℕ → ℕ → ℕ → ShipmentDetails → ℕ → Shipment
  shipment_row tenant_id packing_id allocation_id order_id warehouse_id details shipped_at =
      record {
        id = env.row_id;
        tenant_id = tenant_id;
        packing_id = packing_id;
        allocation_id = allocation_id;
        outbound_order_id = order_id;
        warehouse_id = warehouse_id;
        carrier_code = details.carrier_code;
        tracking_no = details.tracking_no;
        shipped_by = context.user_id;
        shipped_at = shipped_at;
      }

  -- One round of the loop in `shipOutboundPacking`, and the loop. `n` counts the rounds.
  unfoldable pub ship_linked : ℕ → ℕ → ℕ → Allocation → Tx Unit
  ship_linked tenant_id shipped_at n a = do
    throw_if (not (is_allocated a.status))
        (if is_shipped a.status then shipment_already_shipped else shipment_not_ready)
    apply_shipment (env.ledger_id n) env.now (record (a.key) { tenant_id = tenant_id }) a.quantity
        (shipment_movement env context shipped_at)
    modify (set_allocation a.id (ship_row context.user_id shipped_at))

  unfoldable pub ship_all_linked : ℕ → ℕ → ℕ → List Allocation → Tx Unit
  ship_all_linked tenant_id shipped_at n [] = pure tt
  ship_all_linked tenant_id shipped_at n (a ∷ rest) = do
    ship_linked tenant_id shipped_at n a
    ship_all_linked tenant_id shipped_at (suc n) rest

module _ (clients : Clients) (env : Env) (context : Context) (seen : Db) where
  unfoldable pub ship_outbound_allocation : ℕ → ShipmentDetails → Tx Allocation
  ship_outbound_allocation allocation_id details = do
    requested_tenant_id ← require_tenant context.tenant_id
    scope ← or_throw (find_allocation requested_tenant_id allocation_id seen) allocation_not_found
    tenant_id ← authorize clients context "wms.outbound.ship" (some scope.warehouse_id)
    found ← gets (find_allocation tenant_id allocation_id)
    current ← or_throw found allocation_not_found
    throw_if (not (is_allocated current.status)) allocation_not_allocated
    let shipped_at = get_or details.shipped_at env.now
    modify (λ db. record db {
      shipments =
          shipment_row env context tenant_id none (some current.id) current.outbound_order_id
            current.warehouse_id details shipped_at
          ∷ db.shipments;
    })
    apply_shipment (env.ledger_id 0) env.now (record (current.key) { tenant_id = tenant_id })
        current.quantity (shipment_movement env context shipped_at)
    modify (set_allocation current.id (ship_row context.user_id shipped_at))
    refresh_outbound_order_status tenant_id current.outbound_order_id shipped_at
    payload ← gets (λ db. allocation_shipped_data details shipped_at db current)
    record_event env
        (event tenant_id context "wms.outbound.shipped" "outbound_allocation" current.id payload)
    pure (ship_row context.user_id shipped_at current)

  unfoldable pub ship_outbound_packing : ℕ → ShipmentDetails → Tx Shipment
  ship_outbound_packing packing_id details = do
    requested_tenant_id ← require_tenant context.tenant_id
    scope ← or_throw (find_packing requested_tenant_id packing_id seen) packing_not_found
    tenant_id ← authorize clients context "wms.outbound.ship" (some scope.warehouse_id)
    found ← gets (find_packing tenant_id packing_id)
    packing ← or_throw found packing_not_found
    throw_if (is_shipped_packing packing.status) shipment_already_shipped
    throw_if (not (is_confirmed packing.status)) shipment_not_ready
    linked ← gets (λ db. linked_allocations db packing)
    let shipped_at = get_or details.shipped_at env.now
    let created =
        shipment_row env context tenant_id (some packing.id) none packing.outbound_order_id
          packing.warehouse_id details shipped_at
    modify (λ db. record db { shipments = created ∷ db.shipments })
    ship_all_linked env context tenant_id shipped_at 0 linked
    modify (
        set_packing packing.id
          (λ p. record p { status = PackingStatus.shipped; shipped_at = some shipped_at }))
    refresh_outbound_order_status tenant_id packing.outbound_order_id shipped_at
    payload ← gets (λ db. packing_shipped_data env details shipped_at db packing)
    record_event env
        (event tenant_id context "wms.outbound.shipped" "outbound_shipment" env.row_id payload)
    pure created

  -- `validateOutboundShipmentBody`, on the two ids
  unfoldable pub check_shipment : ShipmentInput → Tx Unit
  check_shipment input =
      throw_if
        (is_some input.allocation_id && is_some input.packing_id
          || not (is_some input.allocation_id || is_some input.packing_id))
        (validation_failed "allocationId")

  unfoldable pub ship_by_ids : Option ℕ → Option ℕ → ShipmentDetails → Tx (Allocation ⊎ Shipment)
  ship_by_ids allocation_id (some packing_id) details = do
    shipped ← ship_outbound_packing packing_id details
    pure (inr shipped)
  ship_by_ids none none details = throw (validation_failed "allocationId")
  ship_by_ids (some allocation_id) none details = do
    shipped ← ship_outbound_allocation allocation_id details
    pure (inl shipped)

  unfoldable pub ship_outbound : ShipmentInput → Tx (Allocation ⊎ Shipment)
  ship_outbound input = do
    check_shipment input
    ship_by_ids input.allocation_id input.packing_id input.details
