-- ===== src/Wms/Shipping/Releases.antt =====
-- A shipment of an allocation takes its stock out.
use multi_tenant.Base.{ℕ, ℤ, neg_ℤ, ◌+ℤ◌, false, not, ◌≡◌, refl, ap, sym, ◌∙◌, some, List, if_both}
use multi_tenant.Wms.Effects.{Keeps, Achieves, ok}
use multi_tenant.Wms.Types.{
  StockKey, same_key, Balance, Allocation, AllocationStatus, Db, Env, Context,
}
use multi_tenant.Effects.Keeps.{Keeps-modify}
use multi_tenant.Effects.Achieves.{
  Achieves-keeps, Achieves-done, Achieves-gets, Achieves-or_throw, Achieves-throw_if, Achieves-to,
  Achieves-of, Achieves-given, Achieves-ok,
}
use multi_tenant.Wms.Access.{Clients}
use multi_tenant.Wms.Access.Granted.{Achieves-authorize, Achieves-require_tenant}
use multi_tenant.Wms.Inventory.{
  Movement, find_balance, quantity_of, allocated_of, write_movement, apply_inventory_movement,
  apply_shipment,
}
use multi_tenant.Wms.Inventory.Balances.{find_balance-upsert_balance, same_key_refl}
use multi_tenant.Wms.Inventory.Audit.{move_balance_rule}
use multi_tenant.Wms.Events.{record_event}
use multi_tenant.Wms.Outbound.{is_allocated, refresh_outbound_order_status, has_remaining}
use multi_tenant.Wms.Service.Guards.{guard_rules}
use multi_tenant.Wms.Shipping.{ShipmentDetails, find_allocation, ship_outbound_allocation}

-- The quantity has left the balance of the key, and what is allocated of it. No other balance has
-- changed.
pub record IsReleased (before after : List Balance) (k : StockKey) (quantity : ℤ) : Type 0 where
  pub quantity_less :
      quantity_of (find_balance k after) ≡ quantity_of (find_balance k before) +ℤ neg_ℤ quantity
  pub allocated_less :
      allocated_of (find_balance k after) ≡ allocated_of (find_balance k before) +ℤ neg_ℤ quantity
  pub others : (j : StockKey) → same_key k j ≡ false → find_balance j after ≡ find_balance j before

-- What a shipment that returns has released: the allocation's quantity, for the tenant of the
-- headers.
pub record Releases (context : Context) (id : ℕ) (db : Db) (after : List Balance) : Type 0 where
  pub tenant : ℕ
  pub header : context.tenant_id ≡ some tenant
  pub row : Allocation
  pub found : find_allocation tenant id db ≡ some row
  pub was : row.status ≡ AllocationStatus.allocated
  pub released : IsReleased db.balances after (record (row.key) { tenant_id = tenant }) row.quantity

module _ (before : List Balance) (k : StockKey) (quantity : ℤ) where
  write-IsReleased :
      (id now : ℕ) (command : Movement) (db : Db)
      → db.balances ≡ before
      → command.quantity_change ≡ neg_ℤ quantity
      → command.allocated_quantity_change ≡ neg_ℤ quantity
      → IsReleased before
          (write_movement id now k command
            (quantity_of (find_balance k db.balances) +ℤ command.quantity_change)
            (allocated_of (find_balance k db.balances) +ℤ command.allocated_quantity_change)
            db).balances
          k
          quantity
  unfolding write_movement
  write-IsReleased id now command db e zq za = record {
    quantity_less = rw (find_balance-upsert_balance, same_key_refl k, zq, e);
    allocated_less = rw (find_balance-upsert_balance, same_key_refl k, za, e);
    others = λ j ne. rw (find_balance-upsert_balance, ne) (ap (find_balance j) e);
  }

  apply_shipment-Achieves :
      (id now : ℕ) (command : Movement)
      → Achieves
          (λ db. db.balances ≡ before)
          (λ db. IsReleased before db.balances k quantity)
          (apply_shipment id now k quantity command)
  unfolding apply_shipment apply_inventory_movement
  apply_shipment-Achieves id now command = Achieves-keeps _ _ (search guard_rules) λ _. record {
    at =
        λ db p. move_balance_rule _ id now k _ db (λ _ _. write-IsReleased id now _ db p refl refl);
  }

-- The order's status is not stock.
refresh_outbound_order_status-balances :
    (P : List Balance → Type 0) (t id at : ℕ)
    → Keeps (λ db. P db.balances) (refresh_outbound_order_status t id at)
unfolding refresh_outbound_order_status
refresh_outbound_order_status-balances P t id at =
    Keeps-modify _ (λ db h. if_both (λ (d : Db). P d.balances) (has_remaining t id db) h h)

was_allocated :
    (s : AllocationStatus) → not (is_allocated s) ≡ false → s ≡ AllocationStatus.allocated
was_allocated AllocationStatus.allocated h = refl
was_allocated AllocationStatus.shipped h = cc h
was_allocated AllocationStatus.cancelled h = cc h

module _ (clients : Clients) (env : Env) (context : Context) (seen : Db) (id : ℕ)
    (details : ShipmentDetails) (start : Db) where
  ship_outbound_allocation-Achieves :
      Achieves
        (λ db. db ≡ start)
        (λ db. Releases context id start db.balances)
        (ship_outbound_allocation clients env context seen id details)
  unfolding ship_outbound_allocation record_event
  ship_outbound_allocation-Achieves = Achieves-require_tenant clients context _ λ t' h'.
      Achieves-or_throw _ _ _ λ scope e. Achieves-authorize clients context _ _ _ λ t h.
        Achieves-gets _ _ λ found. Achieves-or_throw found _ _ λ current f.
          Achieves-throw_if _ _ _ λ allocated.
            Achieves-given {C = find_allocation t id start ≡ found}
              (λ db p. ap (find_allocation t id) (sym p.0) ∙ p.1)
              λ there.
                Achieves-of {P = λ db. db.balances ≡ start.balances} (λ db p. ap Db.balances p.0)
                  (Achieves-keeps _ _ (Keeps-modify _ (λ db p. p)) λ _.
                    Achieves-done _ _
                      (Achieves-to
                        (λ db r. record {
                          tenant = t;
                          header = h;
                          row = current;
                          found = there ∙ f;
                          was = was_allocated current.status allocated;
                          released = r;
                        })
                        (apply_shipment-Achieves start.balances
                          (record (current.key) { tenant_id = t }) current.quantity _ _ _))
                      λ _. search (
                        guard_rules,
                        Keeps-modify,
                        refresh_outbound_order_status-balances (Releases context id start),
                      ))

-- A shipment of an allocation that returns found the row of the headers' tenant, which was allocated.
-- It takes the row's quantity from the quantity of the row's balance and from what is allocated of
-- it, and changes no other balance.
pub ship_outbound_allocation-Releases :
    (clients : Clients) (env : Env) (context : Context) (seen : Db) (id : ℕ)
    (details : ShipmentDetails) (db db' : Db) (a : Allocation)
    → ship_outbound_allocation clients env context seen id details db ≡ ok (a, db')
    → Releases context id db db'.balances
ship_outbound_allocation-Releases clients env context seen id details db db' a e =
    Achieves-ok db db' a (ship_outbound_allocation-Achieves clients env context seen id details db)
      refl e
