-- ===== src/Wms/Service/Audit.antt =====
-- The ledger accounts for the stock, throughout every history of calls.
use multi_tenant.Base.{ℕ, List, [], ◌∷◌, All, if_both}
use multi_tenant.Wms.Effects.{Keeps}
use multi_tenant.Wms.Types.{StockKey, Balance, LedgerRow, Db, Env, Context}
use multi_tenant.Effects.Keeps.{Keeps-modify}
use multi_tenant.Wms.Inventory.{Movement, move_balance}
use multi_tenant.Wms.Inventory.Audit.{AreSound, IsAudited, move_balance-IsAudited}
use multi_tenant.Wms.Outbound.{has_remaining, refresh_outbound_order_status}
use multi_tenant.Wms.Service.{Call, serve}
use multi_tenant.Wms.Service.Writes.{Writes, serve_induction}

pub All-Unit : (calls : List Call) → All {0, 0} (λ _. Unit) calls
All-Unit [] = tt
All-Unit (c ∷ calls) = (tt, All-Unit calls)

-- A property of the balances and the ledger alone is kept if the movements keep it.
pub Writes-stock :
    (P : List Balance → List LedgerRow → Type 0)
    → ((id now : ℕ) (k : StockKey) (command : Movement)
        → Keeps (λ db. P db.balances db.ledger) (move_balance id now k command))
    → (env : Env) (context : Context) → Writes (λ db. P db.balances db.ledger) env context
Writes-stock P moves env context = record {
  moves = λ id k command. moves id env.now k command;
  events = λ t ty at id payload. Keeps-modify _ (λ db h. h);
  warehouse = λ w. Keeps-modify _ (λ db h. h);
  location = λ l. Keeps-modify _ (λ db h. h);
  item = λ i. Keeps-modify _ (λ db h. h);
  adjustment = λ a. Keeps-modify _ (λ db h. h);
  receipt = λ r. Keeps-modify _ (λ db h. h);
  order = λ t w n. Keeps-modify _ (λ db h. h);
  order_update = λ id f. Keeps-modify _ (λ db h. h);
  order_refresh = λ t id at.
      unfold refresh_outbound_order_status in
      Keeps-modify _
        (λ db h. if_both (λ (d : Db). P d.balances d.ledger) (has_remaining t id db) h h);
  allocation = λ o k i. Keeps-modify _ (λ db h. h);
  allocation_shipped = λ id by at. Keeps-modify _ (λ db h. h);
  packing = λ p. Keeps-modify _ (λ db h. h);
  packing_update = λ id f. Keeps-modify _ (λ db h. h);
  box = λ g. Keeps-modify _ (λ db h. h);
  shipment = λ x. Keeps-modify _ (λ db h. h);
  run = λ r. Keeps-modify _ (λ db h. h);
  run_update = λ id f. Keeps-modify _ (λ db h. h);
  snapshots = λ l. Keeps-modify _ (λ db h. h);
}

-- From a database whose balances agree with its ledger, any history of calls leads to one where
-- they agree again: for every key the balance's quantity and allocated quantity are the sums of
-- the changes in the ledger rows of the key, and neither is negative.
pub serve-IsAudited : (calls : List Call) (db : Db) → IsAudited db → IsAudited (serve calls db)
serve-IsAudited calls db =
    serve_induction {P = IsAudited}
      (λ c _. Writes-stock AreSound move_balance-IsAudited c.env c.context) calls db
      (All-Unit calls)
