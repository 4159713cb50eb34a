-- ===== src/Wms/Service/Permissions.antt =====
-- No request is carried out without its permission.
use multi_tenant.Base.{ℕ, ℤ, Bool, String, Option, none, some, ◌≡◌, ap, List, [], ◌∷◌, arith}
use multi_tenant.Wms.Effects.{Requires}
use multi_tenant.Wms.Types.{Context, Env, Db, Allocation, Packing}
use multi_tenant.Wms.Effects.{ok, throw, Tx, ◌>>=◌, throw_if, pure}
use multi_tenant.Effects.Requires.{
  Requires-first, Requires-then, Requires-bind, Requires-or_throw, bind-eq_ok,
}
use multi_tenant.Wms.Access.{Clients, authorize, require_tenant}
use multi_tenant.Wms.Access.Granted.{IsGranted, authorize-Requires}
use multi_tenant.Wms.MasterData.{create_warehouse, create_location, create_item}
use multi_tenant.Wms.Stock.{adjust_inventory, confirm_inbound}
use multi_tenant.Wms.Outbound.{allocate_outbound}
use multi_tenant.Wms.Packing.{
  create_outbound_packing, add_outbound_package, confirm_outbound_packing, find_packing,
  find_allocations, PackingScope, PackingInput, PackageInput, assert_same_scope,
  assert_packable_allocations,
}
use multi_tenant.Wms.Shipping.{
  ShipmentDetails, find_allocation, ship_outbound_allocation, ship_outbound_packing, ship_by_ids,
  ship_outbound,
}
use multi_tenant.Wms.Snapshot.Generate.{generate_inventory_snapshots}
use multi_tenant.Wms.Service.{
  Request, Call, new_warehouse, new_location, new_item, adjust, receive, allocate, pack,
  add_package, confirm_packing, ship, take_snapshots, perform, handle,
}

abbrev pub packing_warehouse : Option Packing → Option ℕ
packing_warehouse none = none
packing_warehouse (some p) = some p.warehouse_id

abbrev pub allocation_warehouse : Option Allocation → Option ℕ
allocation_warehouse none = none
allocation_warehouse (some a) = some a.warehouse_id

abbrev pub first_warehouse : List Allocation → Option ℕ
first_warehouse [] = none
first_warehouse (a ∷ l) = some a.warehouse_id

-- The warehouse of the packing or the allocation that a shipment names, as a tenant's.
abbrev pub shipped_warehouse : Db → Option ℕ → Option ℕ → ℕ → Option ℕ
shipped_warehouse seen a (some p) t = packing_warehouse (find_packing t p seen)
shipped_warehouse seen none none t = none
shipped_warehouse seen (some a) none t = allocation_warehouse (find_allocation t a seen)

-- The permission in the warehouse of a row that was read: which one, depends on the tenant of the
-- headers.
pub record IsGrantedAt (clients : Clients) (context : Context) (permission : String)
    (warehouse_of : ℕ → Option ℕ) : Type 0 where
  pub tenant : ℕ
  pub warehouse : ℕ
  pub tenant_header : context.tenant_id ≡ some tenant
  pub is_its : warehouse_of tenant ≡ some warehouse
  pub grant : IsGranted clients context permission (some warehouse)

-- What each request asks auth-iam-service for. `seen` is the database that the reads before the
-- transaction saw.
abbrev pub IsPermitted : Clients → Context → Db → Request → Type 0
IsPermitted clients context seen (new_warehouse code name) =
    IsGranted clients context "wms.warehouses.manage" none
IsPermitted clients context seen (new_location input) =
    IsGranted clients context "wms.locations.manage" (some input.warehouse_id)
IsPermitted clients context seen (new_item input) =
    IsGranted clients context "wms.items.manage" none
IsPermitted clients context seen (adjust input) =
    IsGranted clients context "wms.inventory.adjust" (some input.warehouse_id)
IsPermitted clients context seen (receive input) =
    IsGranted clients context "wms.inbound.confirm" (some input.warehouse_id)
IsPermitted clients context seen (allocate input) =
    IsGranted clients context "wms.outbound.allocate" (some input.warehouse_id)
IsPermitted clients context seen (pack input) =
    IsGrantedAt clients context "wms.outbound.pack"
      (λ t. first_warehouse (find_allocations t input.allocation_ids seen))
IsPermitted clients context seen (add_package packing_id input) =
    IsGrantedAt clients context "wms.outbound.pack"
      (λ t. packing_warehouse (find_packing t packing_id seen))
IsPermitted clients context seen (confirm_packing packing_id) =
    IsGrantedAt clients context "wms.outbound.pack"
      (λ t. packing_warehouse (find_packing t packing_id seen))
IsPermitted clients context seen (ship input) =
    IsGrantedAt clients context "wms.outbound.ship"
      (shipped_warehouse seen input.allocation_id input.packing_id)
IsPermitted clients context seen (take_snapshots input) =
    IsGranted clients context "wms.inventory.snapshot.generate" input.warehouse_id

ruleset requires_rules = (Requires-first, Requires-then, authorize-Requires)

-- What follows `authorize` is reached with the permission.
authorize-At :
    {A : Type 0} (clients : Clients) (context : Context) (permission : String) (t w : ℕ)
    (warehouse_of : ℕ → Option ℕ) (f : ℕ → Tx A)
    → context.tenant_id ≡ some t
    → warehouse_of t ≡ some w
    → Requires
        (IsGrantedAt clients context permission warehouse_of)
        (authorize clients context permission (some w) >>= f)
authorize-At clients context permission t w warehouse_of f header its = Requires-first _ _ (record {
  at = λ db db' a h. record {
    tenant = t;
    warehouse = w;
    tenant_header = header;
    is_its = its;
    grant = (authorize-Requires clients context permission (some w)).at db db' a h;
  };
})

-- The scope of allocations is that of the first one.
assert_same_scope-first :
    (l : List Allocation) (requested : Option ℕ) (db db' : Db) (scope : PackingScope)
    → assert_same_scope l requested db ≡ ok (scope, db')
    → first_warehouse l ≡ some scope.warehouse_id
unfolding assert_same_scope throw throw_if pure ◌>>=◌
assert_same_scope-first [] requested db db' scope h = cc h
assert_same_scope-first (a ∷ l) requested db db' scope h = ground (arith, h)

assert_packable_allocations-first :
    (l : List Allocation) (ids : List ℕ) (requested : Option ℕ) (db db' : Db) (scope : PackingScope)
    → assert_packable_allocations l ids requested db ≡ ok (scope, db')
    → first_warehouse l ≡ some scope.warehouse_id
unfolding assert_packable_allocations
assert_packable_allocations-first l ids requested db db' scope h =
    let p = bind-eq_ok _ _ db db' scope h in
    let q = bind-eq_ok _ _ p.1 db' scope p.3 in
    assert_same_scope-first l requested q.1 db' scope q.3

module _ (clients : Clients) (is_short : ℤ → ℤ → ℤ → Bool) (env : Env) (context : Context)
    (seen : Db) where
  create_outbound_packing-Requires :
      (input : PackingInput)
      → Requires
          (IsPermitted clients context seen (pack input))
          (create_outbound_packing clients env context seen input)
  unfolding create_outbound_packing require_tenant
  create_outbound_packing-Requires input = Requires-or_throw _ _ _ λ t header.
      Requires-bind _ _ λ db db' scope h.
        authorize-At clients context _ t _ _ _ header
          (assert_packable_allocations-first _ _ _ db db' scope h)

  -- The methods that read a packing first.
  add_outbound_package-Requires :
      (id : ℕ) (input : PackageInput)
      → Requires
          (IsPermitted clients context seen (add_package id input))
          (add_outbound_package clients env context seen id input)
  unfolding add_outbound_package require_tenant
  add_outbound_package-Requires id input = Requires-or_throw _ _ _ λ t header.
      Requires-or_throw _ _ _
        λ scope h. authorize-At clients context _ t _ _ _ header (ap packing_warehouse h)

  confirm_outbound_packing-Requires :
      (id : ℕ)
      → Requires
          (IsPermitted clients context seen (confirm_packing id))
          (confirm_outbound_packing clients env context seen id)
  unfolding confirm_outbound_packing require_tenant
  confirm_outbound_packing-Requires id = Requires-or_throw _ _ _ λ t header.
      Requires-or_throw _ _ _
        λ scope h. authorize-At clients context _ t _ _ _ header (ap packing_warehouse h)

  ship_outbound_packing-Requires :
      (a : Option ℕ) (id : ℕ) (details : ShipmentDetails)
      → Requires
          (IsGrantedAt clients context "wms.outbound.ship" (shipped_warehouse seen a (some id)))
          (ship_outbound_packing clients env context seen id details)
  unfolding ship_outbound_packing require_tenant
  ship_outbound_packing-Requires a id details = Requires-or_throw _ _ _ λ t header.
      Requires-or_throw _ _ _
        λ scope h. authorize-At clients context _ t _ _ _ header (ap packing_warehouse h)

  ship_outbound_allocation-Requires :
      (id : ℕ) (details : ShipmentDetails)
      → Requires
          (IsGrantedAt clients context "wms.outbound.ship" (shipped_warehouse seen (some id) none))
          (ship_outbound_allocation clients env context seen id details)
  unfolding ship_outbound_allocation require_tenant
  ship_outbound_allocation-Requires id details = Requires-or_throw _ _ _ λ t header.
      Requires-or_throw _ _ _
        λ scope h. authorize-At clients context _ t _ _ _ header (ap allocation_warehouse h)

  ship_by_ids-Requires :
      (a p : Option ℕ) (details : ShipmentDetails)
      → Requires
          (IsGrantedAt clients context "wms.outbound.ship" (shipped_warehouse seen a p))
          (ship_by_ids clients env context seen a p details)
  unfolding ship_by_ids
  ship_by_ids-Requires a (some p) details =
      Requires-first _ _ (ship_outbound_packing-Requires a p details)
  ship_by_ids-Requires none none details = record { at = λ db db' a h. unfold throw in cc }
  ship_by_ids-Requires (some a) none details =
      Requires-first _ _ (ship_outbound_allocation-Requires a details)

  perform-Requires :
      (r : Request)
      → Requires (IsPermitted clients context seen r) (perform clients is_short env context seen r)
  unfolding perform create_warehouse create_location create_item adjust_inventory confirm_inbound
      allocate_outbound ship_outbound generate_inventory_snapshots
  perform-Requires (new_warehouse code name) = search requires_rules depth 10
  perform-Requires (pack input) = Requires-first _ _ (create_outbound_packing-Requires input)
  perform-Requires (add_package id input) =
      Requires-first _ _ (add_outbound_package-Requires id input)
  perform-Requires (confirm_packing id) = Requires-first _ _ (confirm_outbound_packing-Requires id)
  perform-Requires (ship input) =
      Requires-first _ _ (Requires-then _ _ λ _. ship_by_ids-Requires _ _ _)
  perform-Requires r = search requires_rules depth 10

-- A request that is carried out was permitted: the headers named a tenant and a user, the
-- tenant's status was active and its modules had wms, and the user had the request's permission. A
-- request for a packing or a shipment needs it in the warehouse of the tenant's packing or
-- allocation that it names, as the reads before the transaction saw it (of the first one, where a
-- packing is made of several); a request with a warehouse in its body needs it there, the others for
-- no warehouse in particular.
pub handle-IsPermitted :
    (c : Call) (db db' : Db)
    → handle c db ≡ ok (tt, db')
    → IsPermitted c.clients c.context c.seen c.request
handle-IsPermitted c db db' h =
    (perform-Requires c.clients c.is_short c.env c.context c.seen c.request).at db db' tt h
