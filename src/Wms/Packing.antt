-- ===== src/Wms/Packing.antt =====
-- Packing: `createOutboundPacking`, `addOutboundPackage` and `confirmOutboundPacking` of
-- apps/wms-service/src/wms/wms.service.ts, with `assertPackableAllocations`. The scope is read
-- before the transaction: `seen` is the database at that time, of which nothing is assumed.
pub mod Quantities
pub mod Match
pub mod Entries
pub mod Verdict
use multi_tenant.Base.{
  ℕ, ℤ, String, Bool, true, false, not, ◌&&◌, ◌||◌, Option, none, some, List, [], ◌∷◌, map, ◌==◌,
  find, any, select, contains, update_where, is_some, filter_map, length, str_eq, if◌then◌else◌,
}
use multi_tenant.Json.{Json, obj, arr, end, field, uuid, uuids, str, num, fixed, instant}
use multi_tenant.Wms.Types.{
  Order, Allocation, Packing, PackingStatus, Package, PackageItem, Db, Env, Context,
}
use multi_tenant.Wms.Effects.{
  WmsError, validation_failed, allocation_not_found, allocation_not_allocated,
  packing_allocation_mismatch, packing_allocation_already_packed, packing_not_found,
  packing_already_confirmed, package_no_conflict, internal_error, Result, Tx, ◌>>=◌, ◌>>◌, pure,
  throw, throw_if, or_throw, gets, modify,
}
use multi_tenant.Wms.Access.{Clients, authorize, require_tenant}
use multi_tenant.Wms.Events.{record_event, event}
use multi_tenant.Wms.Outbound.{is_allocated}
use Quantities.{assert_packing_quantities_match, total_packed_quantity}

-- `findMany` of the ids, within the tenant
abbrev pub find_allocations : ℕ → List ℕ → Db → List Allocation
find_allocations tenant_id ids db =
    select (λ a. contains a.id ids && a.tenant_id == tenant_id) db.allocations

-- `outboundPacking.findFirst` of the id, within the tenant
abbrev pub find_packing : ℕ → ℕ → Db → Option Packing
find_packing tenant_id id db = find (λ p. p.id == id && p.tenant_id == tenant_id) db.packings

-- The allocations that a packing links to (`include: { allocation: true }`).
abbrev pub linked_allocations : Db → Packing → List Allocation
linked_allocations db p =
    filter_map (λ i. find (λ (a : Allocation). a.id == i) db.allocations) p.allocation_ids

abbrev pub packages_of : Db → ℕ → List Package
packages_of db packing_id = select (λ g. g.packing_id == packing_id) db.packages

abbrev pub order_no_of : Db → ℕ → Json
order_no_of db order_id = elim (find (λ (o : Order). o.id == order_id) db.orders) [
  | none ↦ Json.null
  | some o ↦ str o.order_no
]

-- What `assertPackableAllocations` returns, but for the order's number, which no caller reads.
pub record PackingScope : Type 0 where
  pub outbound_order_id : ℕ
  pub warehouse_id : ℕ

abbrev pub requests_other : Option ℕ → ℕ → Bool
requests_other none order_id = false
requests_other (some i) order_id = not (i == order_id)

-- With no allocation at all, `allocations[0]` is undefined and reading its order throws.
unfoldable pub assert_same_scope : List Allocation → Option ℕ → Tx PackingScope
assert_same_scope [] requested = throw internal_error
assert_same_scope (first ∷ rest) requested = do
  throw_if
      (any
          (λ a.
            not (a.outbound_order_id == first.outbound_order_id)
            || not (a.warehouse_id == first.warehouse_id))
          (first ∷ rest)
        || requests_other requested first.outbound_order_id)
      packing_allocation_mismatch
  pure (record { outbound_order_id = first.outbound_order_id; warehouse_id = first.warehouse_id })

unfoldable pub assert_packable_allocations : List Allocation → List ℕ → Option ℕ → Tx PackingScope
assert_packable_allocations allocations ids requested = do
  throw_if
      (any (λ i. not (contains i (map (λ (a : Allocation). a.id) allocations))) ids
        || not (length allocations == length ids))
      allocation_not_found
  throw_if (any (λ a. not (is_allocated a.status)) allocations) allocation_not_allocated
  assert_same_scope allocations requested

abbrev pub is_cancelled : PackingStatus → Bool
is_cancelled PackingStatus.cancelled = true
is_cancelled PackingStatus.packing = false
is_cancelled PackingStatus.confirmed = false
is_cancelled PackingStatus.shipped = false

abbrev pub is_packing : PackingStatus → Bool
is_packing PackingStatus.packing = true
is_packing PackingStatus.confirmed = false
is_packing PackingStatus.shipped = false
is_packing PackingStatus.cancelled = false

-- An allocation of the list is in a packing of the tenant that is not cancelled.
abbrev pub already_packed : ℕ → List ℕ → Db → Bool
already_packed tenant_id ids db =
    any
      (λ p.
        p.tenant_id == tenant_id
        && (not (is_cancelled p.status) && any (λ i. contains i ids) p.allocation_ids))
      db.packings

pub record PackingInput : Type 0 where
  pub outbound_order_id : Option ℕ
  pub allocation_ids : List ℕ
  pub memo : Option String

pub record PackageInput : Type 0 where
  pub package_no : String
  pub box_type : Option String
  pub weight : Option ℤ
  pub width : Option ℤ
  pub height : Option ℤ
  pub depth : Option ℤ
  pub items : List PackageItem

abbrev pub packing_row : Env → Context → ℕ → PackingScope → PackingInput → Packing
packing_row env context tenant_id scope input = record {
  id = env.row_id;
  tenant_id = tenant_id;
  outbound_order_id = scope.outbound_order_id;
  warehouse_id = scope.warehouse_id;
  status = PackingStatus.packing;
  memo = input.memo;
  packed_by = context.user_id;
  confirmed_by = none;
  confirmed_at = none;
  shipped_at = none;
  allocation_ids = input.allocation_ids;
}

abbrev pub package_row : Env → ℕ → ℕ → PackageInput → Package
package_row env tenant_id packing_id input = record {
  id = env.row_id;
  tenant_id = tenant_id;
  packing_id = packing_id;
  package_no = input.package_no;
  box_type = input.box_type;
  weight = input.weight;
  width = input.width;
  height = input.height;
  depth = input.depth;
  items = input.items;
}

-- An item whose allocation is not in the packing, or is of another item: the loop of
-- `addOutboundPackage` throws at the first one.
abbrev pub is_foreign : List Allocation → PackageItem → Bool
is_foreign linked item = elim (find (λ (a : Allocation). a.id == item.allocation_id) linked) [
  | none ↦ true
  | some a ↦ not (a.item_id == item.item_id)
]

abbrev pub has_package_no : ℕ → ℕ → String → Db → Bool
has_package_no tenant_id packing_id package_no db =
    any
      (λ g.
        g.tenant_id == tenant_id && (g.packing_id == packing_id && str_eq g.package_no package_no))
      db.packages

-- `outboundPacking.update` of an id
abbrev pub set_packing : ℕ → (Packing → Packing) → Db → Db
set_packing id f db = record db { packings = update_where (λ p. p.id == id) f db.packings }

abbrev pub packed_data : Env → Db → Packing → Json
packed_data env db p = obj (
    field "packingId" (uuid p.id) (
      field "outboundOrderId" (uuid p.outbound_order_id) (
        field "orderNo" (order_no_of db p.outbound_order_id) (
          field "allocationIds" (arr (uuids p.allocation_ids)) (
            field "packageIds" (arr (uuids (map (λ (g : Package). g.id) (packages_of db p.id)))) (
              field "packageCount" (num (length (packages_of db p.id))) (
                field "totalQuantity" (fixed (total_packed_quantity (packages_of db p.id)))
                  (field "confirmedAt" (instant env.now) end))))))))

module _ (clients : Clients) (env : Env) (context : Context) (seen : Db) where
  unfoldable pub create_outbound_packing : PackingInput → Tx Packing
  create_outbound_packing input = do
    requested_tenant_id ← require_tenant context.tenant_id
    scope ←
        assert_packable_allocations (find_allocations requested_tenant_id input.allocation_ids seen)
          input.allocation_ids input.outbound_order_id
    tenant_id ← authorize clients context "wms.outbound.pack" (some scope.warehouse_id)
    allocations ← gets (find_allocations tenant_id input.allocation_ids)
    packing_scope ←
        assert_packable_allocations allocations input.allocation_ids input.outbound_order_id
    packed ← gets (already_packed tenant_id input.allocation_ids)
    throw_if packed packing_allocation_already_packed
    let created = packing_row env context tenant_id packing_scope input
    modify (λ db. record db { packings = created ∷ db.packings })
    pure created

  unfoldable pub add_outbound_package : ℕ → PackageInput → Tx Package
  add_outbound_package packing_id input = do
    requested_tenant_id ← require_tenant context.tenant_id
    scope ← or_throw (find_packing requested_tenant_id packing_id seen) packing_not_found
    tenant_id ← authorize clients context "wms.outbound.pack" (some scope.warehouse_id)
    found ← gets (find_packing tenant_id packing_id)
    packing ← or_throw found packing_not_found
    throw_if (not (is_packing packing.status)) packing_already_confirmed
    taken ← gets (has_package_no tenant_id packing_id input.package_no)
    throw_if taken package_no_conflict
    linked ← gets (λ db. linked_allocations db packing)
    throw_if (any (is_foreign linked) input.items) packing_allocation_mismatch
    let created = package_row env tenant_id packing_id input
    modify (λ db. record db { packages = created ∷ db.packages })
    pure created

  unfoldable pub confirm_outbound_packing : ℕ → Tx Packing
  confirm_outbound_packing packing_id = do
    requested_tenant_id ← require_tenant context.tenant_id
    scope ← or_throw (find_packing requested_tenant_id packing_id seen) packing_not_found
    tenant_id ← authorize clients context "wms.outbound.pack" (some scope.warehouse_id)
    found ← gets (find_packing tenant_id packing_id)
    packing ← or_throw found packing_not_found
    throw_if (not (is_packing packing.status)) packing_already_confirmed
    linked ← gets (λ db. linked_allocations db packing)
    packages ← gets (λ db. packages_of db packing.id)
    assert_packing_quantities_match linked packages
    let confirm = λ (p : Packing). record p {
      status = PackingStatus.confirmed;
      confirmed_by = context.user_id;
      confirmed_at = some env.now;
    }
    modify (set_packing packing.id confirm)
    payload ← gets (λ db. packed_data env db packing)
    record_event env
        (event tenant_id context "wms.outbound.packed" "outbound_packing" packing.id payload)
    pure (confirm packing)
