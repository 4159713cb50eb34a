-- ===== src/Wms/Packing/Match.antt =====
-- `assertPackingQuantitiesMatch` against sums over the package items.
use multi_tenant.Base.{ℕ, ℤ, pos, ◌+ℤ◌, ◌||◌, ◌≡◌, refl, List, [], ◌∷◌, ◌==◌, arith, if◌then◌else◌}
use multi_tenant.Base.Int.{int_laws}
use multi_tenant.Wms.Types.{Package, PackageItem}
use multi_tenant.Wms.Packing.Quantities.{
  Quantities, get_quantity, has_quantity, set_quantity, pack_items, packed_quantities,
}

-- What the items put of one allocation.
unfoldable pub packed_items : ℕ → List PackageItem → ℤ
packed_items i [] = pos 0
packed_items i (x ∷ xs) =
    if x.allocation_id == i then x.quantity +ℤ packed_items i xs else packed_items i xs

unfoldable pub packed : ℕ → List Package → ℤ
packed i [] = pos 0
packed i (g ∷ gs) = packed_items i g.items +ℤ packed i gs

pub get_quantity-set_quantity :
    (i k : ℕ) (v : ℤ) (m : Quantities)
    → get_quantity i (set_quantity k v m) ≡ (if k == i then v else get_quantity i m)
unfolding get_quantity set_quantity
get_quantity-set_quantity i k v [] = refl
get_quantity-set_quantity i k v ((j, w) ∷ m) = ground (arith, get_quantity-set_quantity i k v m)

pub has_quantity-set_quantity :
    (i k : ℕ) (v : ℤ) (m : Quantities)
    → has_quantity i (set_quantity k v m) ≡ (k == i || has_quantity i m)
unfolding has_quantity set_quantity
has_quantity-set_quantity i k v [] = refl
has_quantity-set_quantity i k v ((j, w) ∷ m) = ground (arith, has_quantity-set_quantity i k v m)

pack_items-get_quantity :
    (i : ℕ) (xs : List PackageItem) (m : Quantities)
    → get_quantity i (pack_items xs m) ≡ get_quantity i m +ℤ packed_items i xs
unfolding pack_items packed_items
pack_items-get_quantity i [] m = omega int_laws
pack_items-get_quantity i (x ∷ xs) m = grind (
  int_laws,
  pack_items-get_quantity i xs
      (set_quantity x.allocation_id (get_quantity x.allocation_id m +ℤ x.quantity) m),
  get_quantity-set_quantity i x.allocation_id (get_quantity x.allocation_id m +ℤ x.quantity) m,
)

pub packed_quantities-get_quantity :
    (i : ℕ) (gs : List Package) (m : Quantities)
    → get_quantity i (packed_quantities gs m) ≡ get_quantity i m +ℤ packed i gs
unfolding packed_quantities packed
packed_quantities-get_quantity i [] m = omega int_laws
packed_quantities-get_quantity i (g ∷ gs) m = grind (
  int_laws,
  packed_quantities-get_quantity i gs (pack_items g.items m),
  pack_items-get_quantity i g.items m,
)
