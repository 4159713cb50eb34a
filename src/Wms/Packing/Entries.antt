-- ===== src/Wms/Packing/Entries.antt =====
-- The tests of `assertPackingQuantitiesMatch` on the entries of its two maps.
use multi_tenant.Base.{
  ℕ, ℤ, eq_ℤ, true, false, ◌||◌, ◌≡◌, refl, none, List, [], ◌∷◌, ◌==◌, All, contains, arith,
  if_both,
}
use multi_tenant.Wms.Types.{Allocation, Package, PackageItem}
use multi_tenant.Wms.Packing.Quantities.{
  Quantities, get_quantity, has_quantity, set_quantity, expected_quantities, pack_items,
  packed_quantities, invalid_allocation, mismatches,
}
use multi_tenant.Wms.Packing.Match.{get_quantity-set_quantity, has_quantity-set_quantity}

pub eq_ℤ→eq : (a b : ℤ) → eq_ℤ a b ≡ true → a ≡ b
eq_ℤ→eq a b h = ground arith

abbrev pub ids_of : List Allocation → List ℕ
ids_of [] = []
ids_of (a ∷ rest) = a.id ∷ ids_of rest

-- No two of the allocations have one id.
abbrev pub IsDistinct : List Allocation → Type 0
IsDistinct [] = Unit
IsDistinct (a ∷ rest) = (contains a.id (ids_of rest) ≡ false) × IsDistinct rest

pub mismatches→get_quantity :
    (expected packed : Quantities) (i : ℕ)
    → mismatches expected packed ≡ []
    → has_quantity i expected ≡ true
    → get_quantity i expected ≡ get_quantity i packed
unfolding mismatches has_quantity get_quantity
mismatches→get_quantity [] packed i h p = ground arith
mismatches→get_quantity ((k, v) ∷ expected) packed i h p =
    ground (arith, mismatches→get_quantity expected packed i, eq_ℤ→eq v (get_quantity k packed))

pub mismatches-nil :
    (expected packed : Quantities)
    → All (λ e. e.1 ≡ get_quantity e.0 packed) expected
    → mismatches expected packed ≡ []
unfolding mismatches
mismatches-nil [] packed h = refl
mismatches-nil ((k, v) ∷ expected) packed h =
    ground (arith, mismatches-nil expected packed h.1, h.0)

pub invalid_allocation→has_quantity :
    (packed expected : Quantities) (i : ℕ)
    → invalid_allocation packed expected ≡ none
    → has_quantity i packed ≡ true
    → has_quantity i expected ≡ true
unfolding invalid_allocation has_quantity
invalid_allocation→has_quantity [] expected i h p = ground arith
invalid_allocation→has_quantity ((k, v) ∷ packed) expected i h p =
    ground (arith, invalid_allocation→has_quantity packed expected i)

pub invalid_allocation-none :
    (packed expected : Quantities)
    → All (λ e. has_quantity e.0 expected ≡ true) packed
    → invalid_allocation packed expected ≡ none
unfolding invalid_allocation
invalid_allocation-none [] expected h = refl
invalid_allocation-none ((k, v) ∷ packed) expected h =
    rw h.0 (invalid_allocation-none packed expected h.1)

All-set_quantity :
    (Q : ℕ × ℤ → Type 0) (k : ℕ) (v : ℤ) (m : Quantities)
    → All Q m
    → Q (k, v)
    → All Q (set_quantity k v m)
unfolding set_quantity
All-set_quantity Q k v [] h q = (q, tt)
All-set_quantity Q k v ((j, w) ∷ m) h q =
    if_both (All Q) (j == k) (q, h.1) (h.0, All-set_quantity Q k v m h.1 q)

pub All-expected_quantities :
    (Q : ℕ × ℤ → Type 0) (l : List Allocation) (m : Quantities)
    → All Q m
    → All (λ a. Q (a.id, a.quantity)) l
    → All Q (expected_quantities l m)
unfolding expected_quantities
All-expected_quantities Q [] m h q = h
All-expected_quantities Q (a ∷ l) m h q =
    All-expected_quantities Q l (set_quantity a.id a.quantity m)
      (All-set_quantity Q a.id a.quantity m h q.0) q.1

-- A property of keys alone, of the packed map.
All-pack_items :
    (Q : ℕ → Type 0) (xs : List PackageItem) (m : Quantities)
    → All (λ e. Q e.0) m
    → All (λ x. Q x.allocation_id) xs
    → All (λ e. Q e.0) (pack_items xs m)
unfolding pack_items
All-pack_items Q [] m h q = h
All-pack_items Q (x ∷ xs) m h q =
    All-pack_items Q xs _ (All-set_quantity (λ e. Q e.0) x.allocation_id _ m h q.0) q.1

pub All-packed_quantities :
    (Q : ℕ → Type 0) (gs : List Package) (m : Quantities)
    → All (λ e. Q e.0) m
    → All (λ g. All (λ x. Q x.allocation_id) g.items) gs
    → All (λ e. Q e.0) (packed_quantities gs m)
unfolding packed_quantities
All-packed_quantities Q [] m h q = h
All-packed_quantities Q (g ∷ gs) m h q =
    All-packed_quantities Q gs (pack_items g.items m) (All-pack_items Q g.items m h q.0) q.1

pub has_quantity-expected_quantities :
    (i : ℕ) (l : List Allocation) (m : Quantities)
    → has_quantity i (expected_quantities l m) ≡ (contains i (ids_of l) || has_quantity i m)
unfolding expected_quantities
has_quantity-expected_quantities i [] m = refl
has_quantity-expected_quantities i (a ∷ l) m = ground (
  arith,
  has_quantity-expected_quantities i l (set_quantity a.id a.quantity m),
  has_quantity-set_quantity i a.id a.quantity m,
)

get_quantity-expected_quantities_ne :
    (i : ℕ) (l : List Allocation) (m : Quantities)
    → contains i (ids_of l) ≡ false
    → get_quantity i (expected_quantities l m) ≡ get_quantity i m
unfolding expected_quantities
get_quantity-expected_quantities_ne i [] m h = refl
get_quantity-expected_quantities_ne i (a ∷ l) m h = ground (
  arith,
  get_quantity-expected_quantities_ne i l (set_quantity a.id a.quantity m),
  get_quantity-set_quantity i a.id a.quantity m,
)

pub get_quantity-expected_quantities :
    (l : List Allocation) (m : Quantities)
    → IsDistinct l
    → All (λ a. get_quantity a.id (expected_quantities l m) ≡ a.quantity) l
unfolding expected_quantities
get_quantity-expected_quantities [] m h = tt
get_quantity-expected_quantities (a ∷ l) m h = (
  ground (
    arith,
    get_quantity-expected_quantities_ne a.id l (set_quantity a.id a.quantity m),
    get_quantity-set_quantity a.id a.id a.quantity m,
  ),
  get_quantity-expected_quantities l (set_quantity a.id a.quantity m) h.1,
)

pub pack_items-has_quantity :
    (i : ℕ) (xs : List PackageItem) (m : Quantities)
    → has_quantity i m ≡ true
    → has_quantity i (pack_items xs m) ≡ true
unfolding pack_items
pack_items-has_quantity i [] m h = h
pack_items-has_quantity i (x ∷ xs) m h =
    pack_items-has_quantity i xs _ (rw (has_quantity-set_quantity, h) (ground arith))

pub packed_quantities-has_quantity :
    (i : ℕ) (gs : List Package) (m : Quantities)
    → has_quantity i m ≡ true
    → has_quantity i (packed_quantities gs m) ≡ true
unfolding packed_quantities
packed_quantities-has_quantity i [] m h = h
packed_quantities-has_quantity i (g ∷ gs) m h =
    packed_quantities-has_quantity i gs (pack_items g.items m)
      (pack_items-has_quantity i g.items m h)
