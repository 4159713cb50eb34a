-- ===== src/Wms/Stock.antt =====
-- Stock in and out by hand: `adjustInventory` and `confirmInbound` of
-- apps/wms-service/src/wms/wms.service.ts. The input is that of the `validate…Body` methods.
use multi_tenant.Base.{ℕ, ℤ, pos, String, Bool, Option, none, some, ◌∷◌, if◌then◌else◌}
use multi_tenant.Json.{Json, obj, end, field, uuid, str, fixed, date, uuid_or_null, str_or_null}
use multi_tenant.Wms.Types.{
  StockKey, Adjustment, Receipt, Env, Context, adjustment, correction, inbound,
  inventory_adjustment, inbound_receipt,
}
use multi_tenant.Wms.Effects.{Tx, ◌>>=◌, ◌>>◌, pure, modify}
use multi_tenant.Wms.Access.{Clients, authorize}
use multi_tenant.Wms.References.{stock_key, ensure_stock_references}
use multi_tenant.Wms.Events.{record_event, event}
use multi_tenant.Wms.Calendar.{business_date}
use multi_tenant.Wms.Inventory.{Movement, apply_quantity_change}

pub record AdjustmentInput : Type 0 where
  pub warehouse_id : ℕ
  pub location_id : ℕ
  pub item_id : ℕ
  pub quantity_change : ℤ
  pub reason : String
  pub reference_no : Option String
  pub memo : Option String
  pub effective_date : ℕ
  pub corrected_ledger_id : Option ℕ
  pub correction_reason : Option String
  pub is_correction : Bool

pub record InboundInput : Type 0 where
  pub warehouse_id : ℕ
  pub location_id : ℕ
  pub item_id : ℕ
  pub quantity : ℤ
  pub reference_no : Option String

abbrev pub adjustment_row : Env → Context → StockKey → AdjustmentInput → Adjustment
adjustment_row env context k input = record {
  id = env.row_id;
  key = k;
  quantity_change = input.quantity_change;
  reason = input.reason;
  reference_no = input.reference_no;
  memo = input.memo;
  adjusted_by = context.user_id;
  effective_date = input.effective_date;
  corrected_ledger_id = input.corrected_ledger_id;
  correction_reason = input.correction_reason;
}

abbrev pub adjustment_movement : Env → Context → AdjustmentInput → Movement
adjustment_movement env context input = record {
  movement_type = if input.is_correction then correction else adjustment;
  source_type = inventory_adjustment;
  source_id = some env.row_id;
  quantity_change = input.quantity_change;
  allocated_quantity_change = pos 0;
  effective_date = input.effective_date;
  request_id = context.request_id;
  corrected_ledger_id = input.corrected_ledger_id;
  correction_reason = input.correction_reason;
}

abbrev pub adjustment_data : Env → AdjustmentInput → Json
adjustment_data env input = obj (
    field "adjustmentId" (uuid env.row_id) (
      field "warehouseId" (uuid input.warehouse_id) (
        field "locationId" (uuid input.location_id) (
          field "itemId" (uuid input.item_id) (
            field "quantityChange" (fixed input.quantity_change) (
              field "reason" (str input.reason) (
                field "referenceNo" (str_or_null input.reference_no) (
                  field "effectiveDate" (date input.effective_date) (
                    field "correctedLedgerId" (uuid_or_null input.corrected_ledger_id)
                      (field "correctionReason" (str_or_null input.correction_reason) end))))))))))

abbrev pub receipt_row : Env → Context → StockKey → InboundInput → Receipt
receipt_row env context k input = record {
  id = env.row_id;
  key = k;
  quantity = input.quantity;
  reference_no = input.reference_no;
  confirmed_by = context.user_id;
  confirmed_at = env.now;
}

abbrev pub inbound_movement : Env → Context → InboundInput → Movement
inbound_movement env context input = record {
  movement_type = inbound;
  source_type = inbound_receipt;
  source_id = some env.row_id;
  quantity_change = input.quantity;
  allocated_quantity_change = pos 0;
  effective_date = business_date env.now;
  request_id = context.request_id;
  corrected_ledger_id = none;
  correction_reason = none;
}

abbrev pub inbound_data : Env → InboundInput → Json
inbound_data env input = obj (
    field "receiptId" (uuid env.row_id) (
      field "warehouseId" (uuid input.warehouse_id) (
        field "locationId" (uuid input.location_id) (
          field "itemId" (uuid input.item_id) (
            field "quantity" (fixed input.quantity)
              (field "referenceNo" (str_or_null input.reference_no) end))))))

module _ (clients : Clients) (env : Env) (context : Context) where
  unfoldable pub adjust_inventory : AdjustmentInput → Tx Adjustment
  adjust_inventory input = do
    tenant_id ← authorize clients context "wms.inventory.adjust" (some input.warehouse_id)
    let k = stock_key tenant_id input.warehouse_id input.location_id input.item_id
    ensure_stock_references k
    let created = adjustment_row env context k input
    modify (λ db. record db { adjustments = created ∷ db.adjustments })
    apply_quantity_change (env.ledger_id 0) env.now k (adjustment_movement env context input)
    record_event env (
        event tenant_id context "wms.inventory.adjusted" "inventory_adjustment" env.row_id
          (adjustment_data env input))
    pure created

  unfoldable pub confirm_inbound : InboundInput → Tx Receipt
  confirm_inbound input = do
    tenant_id ← authorize clients context "wms.inbound.confirm" (some input.warehouse_id)
    let k = stock_key tenant_id input.warehouse_id input.location_id input.item_id
    ensure_stock_references k
    let created = receipt_row env context k input
    modify (λ db. record db { receipts = created ∷ db.receipts })
    apply_quantity_change (env.ledger_id 0) env.now k (inbound_movement env context input)
    record_event env (
        event tenant_id context "wms.inbound.confirmed" "inbound_receipt" env.row_id
          (inbound_data env input))
    pure created
