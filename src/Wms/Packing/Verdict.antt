-- ===== src/Wms/Packing/Verdict.antt =====
-- When a packing can be confirmed: `assertPackingQuantitiesMatch` decides a plain condition.
use multi_tenant.Base.{
  ℕ, true, false, ◌≡◌, ◌↔◌, refl, sym, ◌∙◌, none, some, List, [], ◌∷◌, All, contains, arith, Option,
  is_some, All-map,
}
use multi_tenant.Base.Int.{int_laws}
use multi_tenant.Wms.Types.{Allocation, Package, PackageItem, Db}
use multi_tenant.Wms.Effects.{ok, throw_if}
use multi_tenant.Wms.Packing.Quantities.{
  Quantities, get_quantity, has_quantity, expected_quantities, pack_items, packed_quantities,
  invalid_allocation, mismatches, is_nonempty, assert_packing_quantities_match,
}
use multi_tenant.Wms.Packing.Match.{
  packed, packed_quantities-get_quantity, has_quantity-set_quantity,
}
use multi_tenant.Wms.Packing.Entries.{
  ids_of, IsDistinct, mismatches→get_quantity, mismatches-nil, invalid_allocation→has_quantity,
  invalid_allocation-none, All-expected_quantities, All-packed_quantities,
  has_quantity-expected_quantities, get_quantity-expected_quantities, pack_items-has_quantity,
  packed_quantities-has_quantity,
}

-- Each allocation is packed in full, and every package item is of one of the allocations.
pub record IsMatch (linked : List Allocation) (packages : List Package) : Type 0 where
  pub full : All (λ a. packed a.id packages ≡ a.quantity) linked
  pub known : All (λ g. All (λ x. contains x.allocation_id (ids_of linked) ≡ true) g.items) packages

get_packed : (i : ℕ) (gs : List Package) → get_quantity i (packed_quantities gs []) ≡ packed i gs
unfolding get_quantity
get_packed i gs = packed_quantities-get_quantity i gs [] ∙ omega int_laws

contains-ids_of_self : (i : ℕ) (l : List ℕ) → contains i (i ∷ l) ≡ true
contains-ids_of_self i l = ground arith

has_expected :
    (i : ℕ) (l : List Allocation)
    → has_quantity i (expected_quantities l []) ≡ contains i (ids_of l)
unfolding has_quantity
has_expected i l = rw has_quantity-expected_quantities (ground arith)

-- Each allocation's id is one of the ids.
All-ids_of :
    (l all : List Allocation)
    → ((i : ℕ) → contains i (ids_of l) ≡ true → contains i (ids_of all) ≡ true)
    → All (λ a. contains a.id (ids_of all) ≡ true) l
All-ids_of [] all h = tt
All-ids_of (a ∷ l) all h = (
  h a.id (contains-ids_of_self a.id (ids_of l)),
  All-ids_of l all (λ i c. h i (rw c (ground arith))),
)

module _ (linked : List Allocation) (packages : List Package) where
  abbrev expected : Quantities
  expected = expected_quantities linked []

  abbrev found : Quantities
  found = packed_quantities packages []

  full_of :
      (l : List Allocation)
      → mismatches expected found ≡ []
      → All (λ a. get_quantity a.id expected ≡ a.quantity) l
      → All (λ a. contains a.id (ids_of linked) ≡ true) l
      → All (λ a. packed a.id packages ≡ a.quantity) l
  full_of [] h q c = tt
  full_of (a ∷ l) h q c = (
    sym (get_packed a.id packages)
        ∙ sym (mismatches→get_quantity expected found a.id h (has_expected a.id linked ∙ c.0))
        ∙ q.0,
    full_of l h q.1 c.1,
  )

  item_known :
      (xs : List PackageItem) (m : Quantities)
      → ((i : ℕ) → has_quantity i (pack_items xs m) ≡ true → contains i (ids_of linked) ≡ true)
      → All (λ x. contains x.allocation_id (ids_of linked) ≡ true) xs
  unfolding pack_items
  item_known [] m h = tt
  item_known (x ∷ xs) m h = (
    h x.allocation_id (
        pack_items-has_quantity x.allocation_id xs _ (rw has_quantity-set_quantity (ground arith))),
    item_known xs _ h,
  )

  known_of :
      (gs : List Package) (m : Quantities)
      → ((i : ℕ)
          → has_quantity i (packed_quantities gs m) ≡ true
          → contains i (ids_of linked) ≡ true)
      → All (λ g. All (λ x. contains x.allocation_id (ids_of linked) ≡ true) g.items) gs
  unfolding packed_quantities
  known_of [] m h = tt
  known_of (g ∷ gs) m h = (
    item_known g.items m
        (λ i p. h i (packed_quantities-has_quantity i gs (pack_items g.items m) p)),
    known_of gs (pack_items g.items m) h,
  )

  IsMatch-of_checks :
      IsDistinct linked
      → invalid_allocation found expected ≡ none
      → mismatches expected found ≡ []
      → IsMatch linked packages
  IsMatch-of_checks d v m = record {
    full =
        full_of linked m (get_quantity-expected_quantities linked [] d)
          (All-ids_of linked linked (λ i c. c));
    known =
        known_of packages [] (λ i p.
          sym (has_expected i linked) ∙ invalid_allocation→has_quantity found expected i v p);
  }

  checks-of_IsMatch :
      IsMatch linked packages
      → (invalid_allocation found expected ≡ none) × (mismatches expected found ≡ [])
  checks-of_IsMatch h = (
    invalid_allocation-none found expected (
        All-packed_quantities (λ i. has_quantity i expected ≡ true) packages [] tt
          (All-map packages (λ g. All-map g.items (λ x c. has_expected x.allocation_id linked ∙ c))
            h.known)),
    mismatches-nil expected found (
        All-expected_quantities (λ e. e.1 ≡ get_quantity e.0 found) linked [] tt
          (All-map linked (λ a e. sym e ∙ sym (get_packed a.id packages)) h.full)),
  )

is_some-eq_false {ℓ} : {A : Type ℓ} (o : Option A) → is_some o ≡ false → o ≡ none
is_some-eq_false none h = refl
is_some-eq_false (some a) h = cc

is_nonempty-eq_false {ℓ} : {A : Type ℓ} (l : List A) → is_nonempty l ≡ false → l ≡ []
is_nonempty-eq_false [] h = refl
is_nonempty-eq_false (x ∷ l) h = cc

-- For allocations with distinct ids: `assertPackingQuantitiesMatch` returns exactly when the
-- packages hold each allocation's quantity in full, summed over all packages, and hold no item of
-- another allocation.
pub assert_packing_quantities_match-ok_iff :
    (linked : List Allocation) (packages : List Package) (db : Db)
    → IsDistinct linked
    → (assert_packing_quantities_match linked packages db ≡ ok (tt, db)) ↔ IsMatch linked packages
unfolding assert_packing_quantities_match throw_if
assert_packing_quantities_match-ok_iff linked packages db d = (
  λ e.
      IsMatch-of_checks linked packages d (is_some-eq_false _ (ground arith))
        (is_nonempty-eq_false _ (ground arith)),
  λ h. rw ((checks-of_IsMatch linked packages h).0, (checks-of_IsMatch linked packages h).1),
)
