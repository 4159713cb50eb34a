-- ===== src/Wms/Service/Allocations.antt =====
-- Properties of the allocation table: only an allocation and a shipment write it.
use multi_tenant.Base.{ℕ, Option, List, ◌∷◌, ◌==◌, update_where, if_both}
use multi_tenant.Wms.Effects.{Keeps}
use multi_tenant.Wms.Types.{StockKey, Allocation, Db, Env, Context}
use multi_tenant.Effects.Keeps.{Keeps-modify}
use multi_tenant.Wms.Inventory.{Movement, move_balance, write_movement}
use multi_tenant.Wms.Inventory.Audit.{move_balance_rule}
use multi_tenant.Wms.Outbound.{
  AllocationInput, allocation_row, has_remaining, refresh_outbound_order_status,
}
use multi_tenant.Wms.Shipping.{ship_row}
use multi_tenant.Wms.Service.Writes.{Writes}

module _ (P : List Allocation → Type 0) where
  pub move_balance-allocations :
      (id now : ℕ) (k : StockKey) (command : Movement)
      → Keeps (λ db. P db.allocations) (move_balance id now k command)
  unfolding write_movement
  move_balance-allocations id now k command = record {
    at = λ db h. move_balance_rule (λ d. P d.allocations) id now k command db (λ _ _. h);
  }

  pub refresh_outbound_order_status-allocations :
      (t id at : ℕ) → Keeps (λ db. P db.allocations) (refresh_outbound_order_status t id at)
  unfolding refresh_outbound_order_status
  refresh_outbound_order_status-allocations t id at =
      Keeps-modify _ (λ db h. if_both (λ (d : Db). P d.allocations) (has_remaining t id db) h h)

  -- Such a property is kept if a new row and a shipped row keep it.
  pub Writes-allocations :
      (env : Env) (context : Context)
      → ((order_id : ℕ) (k : StockKey) (input : AllocationInput) (l : List Allocation)
          → P l
          → P (allocation_row env context order_id k input ∷ l))
      → ((id : ℕ) (by : Option ℕ) (at : ℕ) (l : List Allocation)
          → P l
          → P (update_where (λ a. a.id == id) (ship_row by at) l))
      → Writes (λ db. P db.allocations) env context
  Writes-allocations env context new shipped = record {
    moves = λ id k command. move_balance-allocations id env.now k command;
    events = λ t ty at id payload. Keeps-modify _ (λ db h. h);
    warehouse = λ w. Keeps-modify _ (λ db h. h);
    location = λ l. Keeps-modify _ (λ db h. h);
    item = λ i. Keeps-modify _ (λ db h. h);
    adjustment = λ a. Keeps-modify _ (λ db h. h);
    receipt = λ r. Keeps-modify _ (λ db h. h);
    order = λ t w n. Keeps-modify _ (λ db h. h);
    order_update = λ id f. Keeps-modify _ (λ db h. h);
    order_refresh = refresh_outbound_order_status-allocations;
    allocation = λ o k i. Keeps-modify _ (λ db h. new o k i db.allocations h);
    allocation_shipped = λ id by at. Keeps-modify _ (λ db h. shipped id by at db.allocations h);
    packing = λ p. Keeps-modify _ (λ db h. h);
    packing_update = λ id f. Keeps-modify _ (λ db h. h);
    box = λ g. Keeps-modify _ (λ db h. h);
    shipment = λ x. Keeps-modify _ (λ db h. h);
    run = λ r. Keeps-modify _ (λ db h. h);
    run_update = λ id f. Keeps-modify _ (λ db h. h);
    snapshots = λ l. Keeps-modify _ (λ db h. h);
  }
