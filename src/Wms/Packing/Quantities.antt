-- ===== src/Wms/Packing/Quantities.antt =====
-- `assertPackingQuantitiesMatch` and `totalPackedQuantity` of
-- apps/wms-service/src/wms/wms.service.ts. A `Map` is the list of its entries, in the order in
-- which their keys were first set.
use multi_tenant.Base.{
  ℕ, ℤ, pos, ◌+ℤ◌, eq_ℤ, Bool, true, false, ◌||◌, Option, none, some, List, [], ◌∷◌, ◌==◌, is_some,
  if◌then◌else◌,
}
use multi_tenant.Wms.Types.{Allocation, Package, PackageItem}
use multi_tenant.Wms.Effects.{package_quantity_mismatch, Tx, throw_if}

abbrev pub Quantities : Type 0
Quantities = List (ℕ × ℤ)

-- `map.get(k) ?? 0`
unfoldable pub get_quantity : ℕ → Quantities → ℤ
get_quantity k [] = pos 0
get_quantity k ((j, v) ∷ m) = if j == k then v else get_quantity k m

unfoldable pub has_quantity : ℕ → Quantities → Bool
has_quantity k [] = false
has_quantity k ((j, v) ∷ m) = j == k || has_quantity k m

-- `map.set(k, v)`
unfoldable pub set_quantity : ℕ → ℤ → Quantities → Quantities
set_quantity k v [] = (k, v) ∷ []
set_quantity k v ((j, w) ∷ m) = if j == k then (k, v) ∷ m else (j, w) ∷ set_quantity k v m

unfoldable pub expected_quantities : List Allocation → Quantities → Quantities
expected_quantities [] m = m
expected_quantities (a ∷ rest) m = expected_quantities rest (set_quantity a.id a.quantity m)

unfoldable pub pack_items : List PackageItem → Quantities → Quantities
pack_items [] m = m
pack_items (i ∷ is) m =
    pack_items is (set_quantity i.allocation_id (get_quantity i.allocation_id m +ℤ i.quantity) m)

unfoldable pub packed_quantities : List Package → Quantities → Quantities
packed_quantities [] m = m
packed_quantities (g ∷ gs) m = packed_quantities gs (pack_items g.items m)

-- The first packed key that is not expected.
unfoldable pub invalid_allocation : Quantities → Quantities → Option ℕ
invalid_allocation [] expected = none
invalid_allocation ((k, v) ∷ packed) expected =
    if has_quantity k expected then invalid_allocation packed expected else some k

-- The entries whose packed quantity differs: the id, the expected and the packed quantity.
unfoldable pub mismatches : Quantities → Quantities → List (ℕ × ℤ × ℤ)
mismatches [] packed = []
mismatches ((k, v) ∷ expected) packed =
    let rest = mismatches expected packed in
    if eq_ℤ v (get_quantity k packed) then rest else (k, v, get_quantity k packed) ∷ rest

abbrev pub is_nonempty {ℓ} : {A : Type ℓ} → List A → Bool
is_nonempty [] = false
is_nonempty (x ∷ xs) = true

unfoldable pub assert_packing_quantities_match : List Allocation → List Package → Tx Unit
assert_packing_quantities_match linked packages =
    let expected = expected_quantities linked [] in
    let packed = packed_quantities packages [] in
    throw_if
      (is_some (invalid_allocation packed expected) || is_nonempty (mismatches expected packed))
      (package_quantity_mismatch (invalid_allocation packed expected) (mismatches expected packed))

unfoldable pub sum_items : List PackageItem → ℤ → ℤ
sum_items [] total = total
sum_items (i ∷ is) total = sum_items is (total +ℤ i.quantity)

unfoldable pub sum_packages : List Package → ℤ → ℤ
sum_packages [] total = total
sum_packages (g ∷ gs) total = sum_packages gs (total +ℤ sum_items g.items (pos 0))

unfoldable pub total_packed_quantity : List Package → ℤ
total_packed_quantity packages = sum_packages packages (pos 0)
