-- ===== src/Wms/Inventory.antt =====
-- Stock movements: `applyInventoryMovement` and what leads to it, in
-- apps/wms-service/src/wms/wms.service.ts. A quantity is a whole number of thousandths, so
-- `roundQuantity`, which rounds to three places, leaves every sum of quantities as it is.
pub mod Balances
pub mod Audit
pub mod Running
use multi_tenant.Base.{
  ℕ, ℤ, pos, ◌+ℤ◌, neg_ℤ, ltb_ℤ, String, Bool, true, false, not, ◌||◌, Option, none, some, List, [],
  ◌∷◌, ◌==◌, ◌&&◌, ◌^◌, find, get_or, if◌then◌else◌,
}
use multi_tenant.Wms.Types.{
  StockKey, same_key, Balance, LedgerRow, MovementType, SourceType, Db, Env,
}
use multi_tenant.Wms.Effects.{
  insufficient_stock, ledger_not_found, ledger_reference_mismatch, Result, ok, err, Tx, ◌>>=◌, ◌>>◌,
  pure, throw_if, or_throw, gets, modify,
}

-- `InventoryMovementCommand`
pub record Movement : Type 0 where
  pub movement_type : MovementType
  pub source_type : SourceType
  pub source_id : Option ℕ
  pub quantity_change : ℤ
  pub allocated_quantity_change : ℤ
  pub effective_date : ℕ
  pub request_id : Option String
  pub corrected_ledger_id : Option ℕ
  pub correction_reason : Option String

-- The balance of a key: `inventoryBalance.findUnique`.
abbrev pub find_balance : StockKey → List Balance → Option Balance
find_balance k = find (λ b. same_key b.key k)

-- `current?.quantity ?? 0`
abbrev pub quantity_of : Option Balance → ℤ
quantity_of none = pos 0
quantity_of (some b) = b.quantity

abbrev pub allocated_of : Option Balance → ℤ
allocated_of none = pos 0
allocated_of (some b) = b.allocated_quantity

-- `inventoryBalance.upsert`
unfoldable pub upsert_balance : StockKey → ℤ → ℤ → List Balance → List Balance
upsert_balance k q a [] = record { key = k; quantity = q; allocated_quantity = a } ∷ []
upsert_balance k q a (b ∷ bs) =
    if same_key b.key k
    then record b { quantity = q; allocated_quantity = a } ∷ bs
    else b ∷ upsert_balance k q a bs

abbrev pub same_stock : LedgerRow → StockKey → Bool
same_stock row k =
    row.warehouse_id == k.warehouse_id
    && (row.location_id == k.location_id && row.item_id == k.item_id)

-- The ledger row of an id, within the tenant.
abbrev pub find_ledger : ℕ → ℕ → List LedgerRow → Option LedgerRow
find_ledger tenant_id ledger_id = find (λ row. row.id == ledger_id && row.tenant_id == tenant_id)

unfoldable pub ensure_corrected_ledger_reference : StockKey → Option ℕ → Tx Unit
ensure_corrected_ledger_reference k none = pure tt
ensure_corrected_ledger_reference k (some ledger_id) = do
  found ← gets (λ db. find_ledger k.tenant_id ledger_id db.ledger)
  corrected_ledger ← or_throw found ledger_not_found
  throw_if (not (same_stock corrected_ledger k)) ledger_reference_mismatch

abbrev pub ledger_row : ℕ → ℕ → StockKey → Movement → ℤ → ℤ → LedgerRow
ledger_row id now k command next_quantity next_allocated_quantity = record {
  id = id;
  key = k;
  movement_type = command.movement_type;
  source_type = command.source_type;
  source_id = command.source_id;
  quantity_change = command.quantity_change;
  allocated_quantity_change = command.allocated_quantity_change;
  balance_quantity_after = next_quantity;
  balance_allocated_quantity_after = next_allocated_quantity;
  effective_date = command.effective_date;
  occurred_at = now;
  corrected_ledger_id = command.corrected_ledger_id;
  correction_reason = command.correction_reason;
  request_id = get_or command.request_id "unknown";
}

-- The upsert of the balance and the new ledger row, once the two quantities are known.
unfoldable pub write_movement : ℕ → ℕ → StockKey → Movement → ℤ → ℤ → Db → Db
write_movement id now k command next_quantity next_allocated_quantity db = record db {
  balances = upsert_balance k next_quantity next_allocated_quantity db.balances;
  ledger = ledger_row id now k command next_quantity next_allocated_quantity ∷ db.ledger;
}

-- The second half of `applyInventoryMovement`, from the read of the current balance.
unfoldable pub move_balance : ℕ → ℕ → StockKey → Movement → Tx Unit
move_balance id now k command db =
    let current = find_balance k db.balances in
    let next_quantity = quantity_of current +ℤ command.quantity_change in
    let next_allocated_quantity = allocated_of current +ℤ command.allocated_quantity_change in
    if ltb_ℤ next_quantity (pos 0) || ltb_ℤ next_allocated_quantity (pos 0)
    then err insufficient_stock
    else ok (tt, write_movement id now k command next_quantity next_allocated_quantity db)

unfoldable pub apply_inventory_movement : ℕ → ℕ → StockKey → Movement → Tx Unit
apply_inventory_movement id now k command = do
  ensure_corrected_ledger_reference k command.corrected_ledger_id
  move_balance id now k command

unfoldable pub apply_quantity_change : ℕ → ℕ → StockKey → Movement → Tx Unit
apply_quantity_change id now k command =
    apply_inventory_movement id now k (record command { allocated_quantity_change = pos 0 })

unfoldable pub apply_shipment : ℕ → ℕ → StockKey → ℤ → Movement → Tx Unit
apply_shipment id now k quantity command = apply_inventory_movement id now k (record command {
  quantity_change = neg_ℤ quantity;
  allocated_quantity_change = neg_ℤ quantity;
})

-- `balance.quantity - balance.allocatedQuantity < quantity` is computed in doubles, and the
-- difference is not rounded. `is_short` is that test, of the three quantities in thousandths.
module _ (is_short : ℤ → ℤ → ℤ → Bool) where
  unfoldable pub apply_allocation : ℕ → ℕ → StockKey → ℤ → Movement → Tx Unit
  apply_allocation id now k quantity command = do
    found ← gets (λ db. find_balance k db.balances)
    balance ← or_throw found insufficient_stock
    throw_if (is_short balance.quantity balance.allocated_quantity quantity) insufficient_stock
    apply_inventory_movement id now k
        (record command { quantity_change = pos 0; allocated_quantity_change = quantity })

-- What the test in doubles does, for quantities below `double_limit` thousandths: it is right
-- whenever the two sides differ, by a thousandth at least. Where they are equal the rounding of
-- the difference decides, and it may go either way.
abbrev pub double_limit : ℕ
double_limit = 10 ^ 12
