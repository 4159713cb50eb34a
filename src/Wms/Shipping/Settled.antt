-- ===== src/Wms/Shipping/Settled.antt =====
-- The rows of an allocation that is not allocated any more.
use multi_tenant.Base.{
  ℕ, Bool, true, false, ◌&&◌, ◌≡◌, ◌≢◌, refl, ap, sym, subst, find-test, ◌∙◌, Option, none, some,
  List, [], ◌∷◌, ◌==◌, ==→eq, any, find, filter_map, contains, update_where, arith, Bool-cases, inl,
  inr, if◌then◌else◌,
}
use multi_tenant.Wms.Types.{Allocation}
use multi_tenant.Wms.Outbound.{is_allocated}
use multi_tenant.Wms.Shipping.{ship_row}

abbrev pub has_row : ℕ → List Allocation → Bool
has_row id l = any (λ (a : Allocation). a.id == id) l

-- A row of the id is there, and none of its rows is allocated.
pub record IsSettled (id : ℕ) (l : List Allocation) : Type 0 where
  pub there : has_row id l ≡ true
  pub settled : any (λ (a : Allocation). a.id == id && is_allocated a.status) l ≡ false

module _ (id i : ℕ) (by : Option ℕ) (at : ℕ) where
  -- Shipping rows leaves the ids as they are.
  pub has_row-ship_row :
      (l : List Allocation)
      → has_row id l ≡ true
      → has_row id (update_where (λ a. a.id == i) (ship_row by at) l) ≡ true
  has_row-ship_row [] h = h
  has_row-ship_row (a ∷ l) h = ground (arith, h, has_row-ship_row l)

  still_settled :
      (l : List Allocation)
      → any (λ (a : Allocation). a.id == id && is_allocated a.status) l ≡ false
      → any
          (λ (a : Allocation). a.id == id && is_allocated a.status)
          (update_where (λ a. a.id == i) (ship_row by at) l)
        ≡ false
  still_settled [] h = h
  still_settled (a ∷ l) h = ground (arith, h, still_settled l)

  pub IsSettled-ship_row :
      (l : List Allocation)
      → IsSettled id l
      → IsSettled id (update_where (λ a. a.id == i) (ship_row by at) l)
  IsSettled-ship_row l h = record {
    there = has_row-ship_row l h.there;
    settled = still_settled l h.settled;
  }

module _ (id : ℕ) where
  all_shipped :
      (by : Option ℕ) (at : ℕ) (l : List Allocation)
      → any
          (λ (a : Allocation). a.id == id && is_allocated a.status)
          (update_where (λ a. a.id == id) (ship_row by at) l)
        ≡ false
  all_shipped by at [] = refl
  all_shipped by at (a ∷ l) = ground (arith, all_shipped by at l)

  -- Shipping the rows of the id settles it.
  pub settle :
      (by : Option ℕ) (at : ℕ) (l : List Allocation)
      → has_row id l ≡ true
      → IsSettled id (update_where (λ a. a.id == id) (ship_row by at) l)
  settle by at l h = record {
    there = has_row-ship_row id id by at l h;
    settled = all_shipped by at l;
  }

  pub IsSettled-cons :
      (a : Allocation) (l : List Allocation) → a.id ≢ id → IsSettled id l → IsSettled id (a ∷ l)
  IsSettled-cons a l ne h = record {
    there = ground (arith, h.there);
    settled = ground (arith, h.settled);
  }

  module _ (test : Allocation → Bool) (named : (a : Allocation) → test a ≡ true → a.id ≡ id) where
    pub find-has_row :
        (l : List Allocation) (a : Allocation) → find test l ≡ some a → has_row id l ≡ true
    find-has_row [] a e = cc e
    find-has_row (x ∷ l) a e = grind (arith, find-has_row l a, named x)

    -- No row of a settled id is found allocated.
    pub find-settled :
        (l : List Allocation) (a : Allocation)
        → any (λ (x : Allocation). x.id == id && is_allocated x.status) l ≡ false
        → find test l ≡ some a
        → is_allocated a.status ≡ false
    find-settled [] a h e = cc e
    find-settled (x ∷ l) a h e = grind (arith, find-settled l a, named x)

    -- Shipping the row that is found settles the id.
    pub settle-found :
        (by : Option ℕ) (at : ℕ) (l : List Allocation) (a : Allocation)
        → find test l ≡ some a
        → IsSettled id (update_where (λ b. b.id == a.id) (ship_row by at) l)
    settle-found by at l a e =
        subst (λ i. IsSettled id (update_where (λ b. b.id == i) (ship_row by at) l))
          (sym (named a (find-test test l a e))) (settle by at l (find-has_row l a e))

  has_row-find :
      (l : List Allocation)
      → has_row id l ≡ true
      → (a : Allocation) × (find (λ x. x.id == id) l ≡ some a)
  has_row-find [] h = cc h
  has_row-find (x ∷ l) h = elim (Bool-cases (x.id == id)) [
    | inl t ↦ (x, ap (λ b. if b then some x else find (λ y. y.id == id) l) t)
    | inr f ↦
        let rest = has_row-find l (ground (arith, h, f)) in
        (rest.0, ap (λ b. if b then some x else find (λ y. y.id == id) l) f ∙ rest.1)
  ]

  -- What passes for the row that is found of the id passes for one of the rows that are linked, if the
  -- id is.
  pub any-linked :
      (test : Allocation → Bool) (l : List Allocation)
      → has_row id l ≡ true
      → ((a : Allocation) → find (λ x. x.id == id) l ≡ some a → test a ≡ true)
      → (ids : List ℕ) → contains id ids ≡ true
      → any test (filter_map (λ i. find (λ (x : Allocation). x.id == i) l) ids) ≡ true
  any-linked test l h passes [] e = cc e
  any-linked test l h passes (i ∷ ids) e =
      by_head (any-linked test l h passes ids) (find (λ x. x.id == i) l) refl
    where
      row : (a : Allocation) × (find (λ x. x.id == id) l ≡ some a)
      row = has_row-find l h

      rest : List Allocation
      rest = filter_map (λ j. find (λ (x : Allocation). x.id == j) l) ids

      by_head :
          (contains id ids ≡ true → any test rest ≡ true)
          → (o : Option Allocation) → find (λ x. x.id == i) l ≡ o
          → any test (elim o [ none ↦ rest | some b ↦ b ∷ rest ]) ≡ true
      by_head ih none f = elim (Bool-cases (id == i)) [
        | inl t ↦ cc (sym f ∙ ap (λ j. find (λ x. x.id == j) l) (sym (==→eq id i t)) ∙ row.1)
        | inr d ↦ ih (ground (arith, e, d))
      ]
      by_head ih (some b) f = elim (Bool-cases (id == i)) [
        | inl t ↦
            let p = passes b (ap (λ j. find (λ x. x.id == j) l) (==→eq id i t) ∙ f) in
            ground (arith, p)
        | inr d ↦ let p = ih (ground (arith, e, d)) in ground (arith, p)
      ]
