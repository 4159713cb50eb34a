-- ===== src/Wms/Tests.antt =====
-- The warehouse service on concrete data: a warehouse with one location and one item, a receipt,
-- an allocation, a shipment, a packing, and a snapshot after a backdated correction.
use multi_tenant.Base.{
  inl, inr, ◌+◌, if◌then◌else◌, ℕ, ℤ, pos, ltb_ℤ, Bool, true, ◌≡◌, refl, subst, none, some, List,
  [], ◌∷◌, arith, ◌↔◌, ◌++◌, ◌≤◌,
}
use multi_tenant.Wms.Inventory.Audit.{sum_quantity, sum_allocated}
use multi_tenant.Wms.Inventory.Running.{IsRunning}
use multi_tenant.Wms.Calendar.{business_date, snapshot_at}
use multi_tenant.Wms.Calendar.Laws.{snapshot_at-le_iff}
use multi_tenant.Wms.Access.Granted.{IsGranted, authorize-ok_iff}
use multi_tenant.Wms.Outbound.Reserve.{IsRounded, IsSmall, Reserves, allocate_outbound-Reserves}
use multi_tenant.Wms.Shipping.Releases.{Releases, ship_outbound_allocation-Releases}
use multi_tenant.Wms.Shipping.{ship_row, ship_outbound_allocation}
use multi_tenant.Wms.Shipping.Once.{ship_once}
use multi_tenant.Wms.Packing.Quantities.{assert_packing_quantities_match}
use multi_tenant.Wms.Packing.Verdict.{IsMatch, assert_packing_quantities_match-ok_iff}
use multi_tenant.Wms.Snapshot.{find_snapshot_source_rows}
use multi_tenant.Wms.Snapshot.Sources.{
  sum_until, row_of, quantity_after, find_snapshot_source_rows-eq-sum_until, backdated_source,
}
use multi_tenant.Wms.Service.Audit.{serve-IsAudited}
use multi_tenant.Wms.Service.History.{serve-ledger_extends}
use multi_tenant.Wms.Service.Permissions.{IsPermitted, handle-IsPermitted}
use multi_tenant.Wms.Client.{Outcome, responded, can_retry, fetch_with_policy}
use multi_tenant.Wms.Client.Tried.{IsTried, fetch_with_policy-IsTried}
use multi_tenant.Wms.Types.{
  StockKey, Balance, LedgerRow, Allocation, Package, Db, Env, Context, storage, inbound,
  inbound_receipt,
}
use multi_tenant.Base.Int.{◌+ℤ◌, neg_ℤ}
use multi_tenant.Wms.Effects.{ok, after, ◌>>=◌, pure, throw_if, or_throw, gets, modify, lift}
use multi_tenant.Wms.Access.{
  Clients, authorize, require_tenant, require_user, ensure_tenant_wms_enabled,
}
use multi_tenant.Wms.References.{ensure_stock_references, missing_references}
use multi_tenant.Wms.Inventory.{
  find_balance, move_balance, write_movement, upsert_balance, apply_inventory_movement,
  apply_quantity_change, apply_shipment, apply_allocation, ensure_corrected_ledger_reference,
}
use multi_tenant.Wms.Inventory.Audit.{IsAudited}
use multi_tenant.Wms.Events.{record_event}
use multi_tenant.Wms.Stock.{confirm_inbound}
use multi_tenant.Wms.Outbound.{
  AllocationInput, allocation_row, allocate_outbound, find_or_create_outbound_order, use_order,
  refresh_outbound_order_status,
}
use multi_tenant.Wms.Shipping.{
  ShipmentDetails, ShipmentInput, shipment_row, ship_linked, ship_all_linked, ship_outbound_packing,
  check_shipment, ship_by_ids, ship_outbound,
}
use multi_tenant.Wms.Types.{Packing, PackingStatus}
use multi_tenant.Wms.Service.{ship, Request, Call, receive, allocate, perform, handle, serve, empty}

abbrev clients : Clients
clients = record {
  get_tenant_modules = λ t. ok (record { status = "active"; enabled_modules = "wms" ∷ [] });
  check_permission = λ t u p w. ok true;
}

abbrev pub context : Context
context = record {
  tenant_id = some 1;
  tenant_is_lower = true;
  user_id = some 7;
  request_id = some "request";
}

abbrev pub env : ℕ → Env
env n = record {
  now = n;
  row_id = n;
  order_id = n;
  ledger_id = λ i. n;
  snapshot_id = λ i. n;
  outbox_id = n;
  event_id = n;
}

abbrev stock : StockKey
stock = record { tenant_id = 1; warehouse_id = 2; location_id = 3; item_id = 4 }

-- The master data are there, and no stock.
abbrev pub opened : Db
opened = record empty {
  warehouses = record { id = 2; tenant_id = 1; code = "W"; name = "Warehouse" } ∷ [];
  locations =
      record { id = 3; tenant_id = 1; warehouse_id = 2; code = "L"; name = none; type = storage }
      ∷ [];
  items = record { id = 4; tenant_id = 1; sku = "S"; name = "Item"; uom = "EA" } ∷ [];
}

-- The test in doubles, if it happens to be exact.
abbrev pub is_short : ℤ → ℤ → ℤ → Bool
is_short q a r = ltb_ℤ q (a +ℤ r)

abbrev call : ℕ → Request → Call
call n request = record {
  clients = clients;
  is_short = is_short;
  env = env n;
  context = context;
  seen = empty;
  request = request;
}

abbrev ten_in : Request
ten_in = receive (record {
  warehouse_id = 2;
  location_id = 3;
  item_id = 4;
  quantity = pos 10000;
  reference_no = none;
})

abbrev four : AllocationInput
four = record {
  order_no = "order";
  warehouse_id = 2;
  location_id = 3;
  item_id = 4;
  quantity = pos 4000;
}

abbrev pub history : List Call
history = call 100 ten_in ∷ call 101 (allocate four) ∷ []

abbrev stocked : Db
stocked = after (handle (call 100 ten_in) opened) opened

abbrev reserved : Db
reserved = after (handle (call 101 (allocate four)) stocked) stocked

balances_of_history :
    (serve history opened).balances
    ≡ record { key = stock; quantity = pos 10000; allocated_quantity = pos 4000 } ∷ []
unfolding serve perform ◌>>=◌ pure throw_if or_throw gets modify lift authorize require_tenant
    require_user ensure_tenant_wms_enabled ensure_stock_references missing_references
    apply_quantity_change apply_inventory_movement move_balance write_movement upsert_balance
    ensure_corrected_ledger_reference record_event confirm_inbound allocate_outbound
    apply_allocation find_or_create_outbound_order use_order ◌+ℤ◌
balances_of_history = refl

-- The empty ledger accounts for an empty stock.
opened-IsAudited : IsAudited opened
unfolding sum_quantity sum_allocated
opened-IsAudited = record {
  at_key = λ k. record {
    quantity_audit = refl;
    allocated_audit = refl;
    quantity_nonneg = ground arith;
    allocated_nonneg = ground arith;
  };
}

serve-IsAudited_example : IsAudited (serve history opened)
serve-IsAudited_example = serve-IsAudited history opened opened-IsAudited

serve-ledger_extends_example :
    (recent : List LedgerRow) × ((serve history opened).ledger ≡ recent ++ [])
    × IsRunning (serve history opened).ledger
serve-ledger_extends_example = serve-ledger_extends history opened opened-IsAudited tt

snapshot_at-le_iff_example :
    (1000000000000 ≤ snapshot_at 11574) ↔ (business_date 1000000000000 ≤ 11574)
snapshot_at-le_iff_example = snapshot_at-le_iff 1000000000000 11574

abbrev grant : IsGranted clients context "wms.items.manage" none
grant = record {
  tenant = 1;
  user = 7;
  modules = record { status = "active"; enabled_modules = "wms" ∷ [] };
  tenant_header = refl;
  user_header = refl;
  modules_answer = refl;
  is_live = refl;
  has_module = inl refl;
  allowed = refl;
}

authorize-ok_iff_example :
    (authorize clients context "wms.items.manage" none opened ≡ ok (1, opened))
    ↔ ((g : IsGranted clients context "wms.items.manage" none) × (g.tenant ≡ 1) × (opened ≡ opened))
authorize-ok_iff_example = authorize-ok_iff clients context "wms.items.manage" none opened opened 1

granted_answer : authorize clients context "wms.items.manage" none opened ≡ ok (1, opened)
granted_answer =
    (authorize-ok_iff clients context "wms.items.manage" none opened opened 1).1 (grant, refl, refl)

is_short-IsRounded : IsRounded is_short
is_short-IsRounded = record {
  short_if_less = λ q a r _ _ _ h. h;
  fits_if_more = λ q a r _ _ _ h. ground arith;
}

abbrev reservation : Allocation
reservation = allocation_row (env 101) context 101 stock four

only_balance : (c b : Balance) (k : StockKey) → find_balance k (c ∷ []) ≡ some b → c ≡ b
only_balance c b k h = ground arith

stocked-IsSmall :
    (k : StockKey) (b : Balance)
    → find_balance k stocked.balances ≡ some b
    → IsSmall b.quantity × IsSmall b.allocated_quantity
unfolding serve perform ◌>>=◌ pure throw_if or_throw gets modify lift authorize require_tenant
    require_user ensure_tenant_wms_enabled ensure_stock_references missing_references
    apply_quantity_change apply_inventory_movement move_balance write_movement upsert_balance
    ensure_corrected_ledger_reference record_event confirm_inbound allocate_outbound
    apply_allocation find_or_create_outbound_order use_order ◌+ℤ◌
stocked-IsSmall k b h =
    subst (λ x. IsSmall x.quantity × IsSmall x.allocated_quantity)
      (only_balance (record { key = stock; quantity = pos 10000; allocated_quantity = pos 0 }) b k
        h)
      (omega arith)

allocate_outbound-Reserves_example : Reserves context four stocked.balances reserved.balances
unfolding serve perform ◌>>=◌ pure throw_if or_throw gets modify lift authorize require_tenant
    require_user ensure_tenant_wms_enabled ensure_stock_references missing_references
    apply_quantity_change apply_inventory_movement move_balance write_movement upsert_balance
    ensure_corrected_ledger_reference record_event confirm_inbound allocate_outbound
    apply_allocation find_or_create_outbound_order use_order ◌+ℤ◌
allocate_outbound-Reserves_example =
    allocate_outbound-Reserves clients is_short (env 101) context four stocked reserved reservation
      is_short-IsRounded stocked-IsSmall (ground arith) refl

abbrev details : ShipmentDetails
details = record { carrier_code = none; tracking_no = none; shipped_at = none }

-- A confirmed packing of the reservation.
abbrev confirmed_packing : Packing
confirmed_packing = record {
  id = 9;
  tenant_id = 1;
  outbound_order_id = 101;
  warehouse_id = 2;
  status = PackingStatus.confirmed;
  memo = none;
  packed_by = none;
  confirmed_by = none;
  confirmed_at = none;
  shipped_at = none;
  allocation_ids = 101 ∷ [];
}

abbrev packed : Db
packed = record reserved { packings = confirmed_packing ∷ [] }

abbrev by_packing : ShipmentInput
by_packing = record { allocation_id = none; packing_id = some 9; details = details }

abbrev by_id : ShipmentInput
by_id = record { allocation_id = some 101; packing_id = none; details = details }

abbrev shipped : Db
shipped = after (ship_outbound clients (env 102) context packed by_packing packed) packed

ship_once_example : ¬ (
    ship_outbound clients (env 104) context packed by_id (serve (call 103 ten_in ∷ []) shipped)
    ≡ ok (inl reservation, shipped))
unfolding serve perform ◌>>=◌ pure throw_if or_throw gets modify lift authorize require_tenant
    require_user ensure_tenant_wms_enabled ensure_stock_references missing_references
    apply_quantity_change apply_inventory_movement move_balance write_movement upsert_balance
    ensure_corrected_ledger_reference record_event confirm_inbound allocate_outbound
    apply_allocation find_or_create_outbound_order use_order ◌+ℤ◌ ship_outbound check_shipment
    ship_by_ids ship_outbound_packing ship_all_linked ship_linked apply_shipment
    refresh_outbound_order_status neg_ℤ
ship_once_example =
    ship_once clients clients (env 102) (env 104) context context packed packed 101 1 1 by_packing
      by_id (call 103 ten_in ∷ []) packed shipped shipped
      (inr (shipment_row (env 102) context 1 (some 9) none 101 2 details 102)) (inl reservation)
      refl refl (omega arith, tt)
      (inr (record {
        packing_id = 9;
        packing = confirmed_packing;
        requested = refl;
        found = refl;
        links = refl;
        there = refl;
      }))
      refl (inl (refl, refl))

handle-IsPermitted_example : IsPermitted clients context packed (ship by_packing)
unfolding serve perform ◌>>=◌ pure throw_if or_throw gets modify lift authorize require_tenant
    require_user ensure_tenant_wms_enabled ensure_stock_references missing_references
    apply_quantity_change apply_inventory_movement move_balance write_movement upsert_balance
    ensure_corrected_ledger_reference record_event confirm_inbound allocate_outbound
    apply_allocation find_or_create_outbound_order use_order ◌+ℤ◌ ship_outbound check_shipment
    ship_by_ids ship_outbound_packing ship_all_linked ship_linked apply_shipment
    refresh_outbound_order_status neg_ℤ
handle-IsPermitted_example =
    handle-IsPermitted
      (record {
        clients = clients;
        is_short = is_short;
        env = env 102;
        context = context;
        seen = packed;
        request = ship by_packing;
      })
      packed shipped refl

abbrev released : Db
released =
    after (ship_outbound_allocation clients (env 102) context packed 101 details packed) packed

ship_outbound_allocation-Releases_example : Releases context 101 packed released.balances
unfolding serve perform ◌>>=◌ pure throw_if or_throw gets modify lift authorize require_tenant
    require_user ensure_tenant_wms_enabled ensure_stock_references missing_references
    apply_quantity_change apply_inventory_movement move_balance write_movement upsert_balance
    ensure_corrected_ledger_reference record_event confirm_inbound allocate_outbound
    apply_allocation find_or_create_outbound_order use_order ◌+ℤ◌ ship_outbound_allocation
    apply_shipment refresh_outbound_order_status neg_ℤ
ship_outbound_allocation-Releases_example =
    ship_outbound_allocation-Releases clients (env 102) context packed 101 details packed released
      (ship_row (some 7) 102 reservation) refl

abbrev box : ℕ → ℤ → Package
box id quantity = record {
  id = id;
  tenant_id = 1;
  packing_id = 9;
  package_no = "P";
  box_type = none;
  weight = none;
  width = none;
  height = none;
  depth = none;
  items = record { allocation_id = 101; item_id = 4; quantity = quantity } ∷ [];
}

abbrev boxes : List Package
boxes = box 1 (pos 1000) ∷ box 2 (pos 3000) ∷ []

assert_packing_quantities_match-ok_iff_example :
    (assert_packing_quantities_match (reservation ∷ []) boxes opened ≡ ok (tt, opened))
    ↔ IsMatch (reservation ∷ []) boxes
assert_packing_quantities_match-ok_iff_example =
    assert_packing_quantities_match-ok_iff (reservation ∷ []) boxes opened (refl, tt)

-- A row of the stock: its id and time, its date, the change, and the total.
abbrev row : ℕ → ℕ → ℤ → ℤ → LedgerRow
row n date change total = record {
  id = n;
  key = stock;
  movement_type = inbound;
  source_type = inbound_receipt;
  source_id = none;
  quantity_change = change;
  allocated_quantity_change = pos 0;
  balance_quantity_after = total;
  balance_allocated_quantity_after = pos 0;
  effective_date = date;
  occurred_at = n;
  corrected_ledger_id = none;
  correction_reason = none;
  request_id = "request";
}

find_snapshot_source_rows-eq-sum_until_example :
    quantity_after (
      row_of stock (
        find_snapshot_source_rows 1 5 none
          (row 2 6 (pos 3) (pos 8) ∷ row 1 5 (pos 5) (pos 5) ∷ [])))
    ≡ sum_until stock 5 (row 2 6 (pos 3) (pos 8) ∷ row 1 5 (pos 5) (pos 5) ∷ [])
unfolding sum_quantity sum_allocated ◌+ℤ◌
find_snapshot_source_rows-eq-sum_until_example =
    find_snapshot_source_rows-eq-sum_until 1 5 none stock refl refl
      (row 2 6 (pos 3) (pos 8) ∷ row 1 5 (pos 5) (pos 5) ∷ []) (refl, refl, (refl, refl, tt))
      ((λ _. refl, tt), (tt, tt))

-- Eight units are found on the date, on which there were three.
backdated_source_example :
    quantity_after (
      row_of stock (
        find_snapshot_source_rows 1 5 none
          (row 2 5 (pos 3) (pos 8) ∷ row 1 6 (pos 5) (pos 5) ∷ [])))
    ≡ sum_until stock 5 (row 2 5 (pos 3) (pos 8) ∷ row 1 6 (pos 5) (pos 5) ∷ []) +ℤ pos 5
unfolding sum_quantity sum_allocated ◌+ℤ◌
backdated_source_example =
    backdated_source stock 5 none refl (row 2 5 (pos 3) (pos 8)) (row 1 6 (pos 5) (pos 5)) refl refl
      (omega arith) (omega arith) (refl, refl, (refl, refl, tt))

-- Each attempt is answered by a proxy's error.
abbrev unavailable : ℕ → Outcome
unavailable attempt = responded 503

fetch_with_policy-IsTried_example :
    IsTried unavailable 1
      (if can_retry "GET" then 2 + 1 else 1)
      (fetch_with_policy unavailable 2 "GET")
fetch_with_policy-IsTried_example = fetch_with_policy-IsTried unavailable 2 "GET"
