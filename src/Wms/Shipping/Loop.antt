-- ===== src/Wms/Shipping/Loop.antt =====
-- The loop of `shipOutboundPacking` and the allocation that it ships.
use multi_tenant.Base.{
  ℕ, suc, Bool, true, false, not, ◌≡◌, inl, inr, sym, subst, Option, List, [], ◌∷◌, ◌==◌, ==→eq,
  any, update_where, arith, Bool-cases,
}
use multi_tenant.Wms.Effects.{Achieves, Keeps}
use multi_tenant.Wms.Types.{Allocation, Db, Env, Context}
use multi_tenant.Effects.Keeps.{Keeps-modify}
use multi_tenant.Effects.Achieves.{
  Achieves-keeps, Achieves-done, Achieves-throw_if, Achieves-modify, Achieves-of, Achieves-const,
  Keeps-of,
}
use multi_tenant.Wms.Inventory.{apply_shipment, apply_inventory_movement}
use multi_tenant.Wms.Outbound.{is_allocated}
use multi_tenant.Wms.Shipping.{ship_row, ship_linked, ship_all_linked}
use multi_tenant.Wms.Shipping.Settled.{
  has_row, IsSettled, has_row-ship_row, IsSettled-ship_row, settle,
}
use multi_tenant.Wms.Service.Guards.{guard_rules}
use multi_tenant.Wms.Service.Allocations.{move_balance-allocations}

pub not_allocated : (b : Bool) → b ≡ false → not b ≡ false → ⊥
not_allocated true h k = cc h
not_allocated false h k = cc k

module _ (env : Env) (context : Context) (t at : ℕ) where
  -- A property of the allocations that a shipped row keeps.
  module _ {Q : List Allocation → Type 0}
      (keeps : (i : ℕ) (by : Option ℕ) (at' : ℕ) (l : List Allocation)
        → Q l
        → Q (update_where (λ a. a.id == i) (ship_row by at') l)) where
    ship_linked-allocations :
        (n : ℕ) (a : Allocation) → Keeps (λ db. Q db.allocations) (ship_linked env context t at n a)
    unfolding ship_linked apply_shipment apply_inventory_movement
    ship_linked-allocations n a =
        search (guard_rules, move_balance-allocations Q, Keeps-modify, keeps) depth 14

    ship_all_linked-allocations :
        (n : ℕ) (l : List Allocation)
        → Keeps (λ db. Q db.allocations) (ship_all_linked env context t at n l)
    unfolding ship_all_linked
    ship_all_linked-allocations n [] = search guard_rules
    ship_all_linked-allocations n (a ∷ l) =
        search (guard_rules, ship_linked-allocations n a, ship_all_linked-allocations (suc n) l)

  module _ (id : ℕ) where
    -- A round of the loop settles its allocation.
    ship_linked-settles :
        (n : ℕ) (a : Allocation)
        → a.id ≡ id
        → Achieves
            (λ db. has_row id db.allocations ≡ true)
            (λ db. IsSettled id db.allocations)
            (ship_linked env context t at n a)
    unfolding ship_linked apply_shipment apply_inventory_movement
    ship_linked-settles n a e = Achieves-throw_if _ _ _ λ allocated.
        Achieves-keeps _ _
          (search (guard_rules, move_balance-allocations (λ l. has_row id l ≡ true)))
          λ _. Achieves-modify _ (λ db p.
            subst
              (λ i.
                IsSettled id
                  (update_where (λ b. b.id == i) (ship_row context.user_id at) db.allocations))
              (sym e) (settle id context.user_id at db.allocations p))

    -- So does the loop, for each of its allocations.
    pub ship_all_linked-settles :
        (n : ℕ) (l : List Allocation)
        → has_row id l ≡ true
        → Achieves
            (λ db. has_row id db.allocations ≡ true)
            (λ db. IsSettled id db.allocations)
            (ship_all_linked env context t at n l)
    unfolding ship_all_linked
    ship_all_linked-settles n [] h = cc h
    ship_all_linked-settles n (a ∷ l) h = elim (Bool-cases (a.id == id)) [
      | inl e ↦ Achieves-done _ _ (ship_linked-settles n a (==→eq a.id id e)) λ _.
          ship_all_linked-allocations (λ i by at' l. IsSettled-ship_row id i by at' l) (suc n) l
      | inr e ↦
          Achieves-keeps _ _
            (ship_linked-allocations {Q = λ l. has_row id l ≡ true} (has_row-ship_row id) n a)
            λ _. ship_all_linked-settles (suc n) l (ground (arith, h, e))
    ]

  -- The loop does not get past an allocation that is not allocated.
  ship_linked-refuses :
      {P : Db → Type 0} (n : ℕ) (a : Allocation)
      → is_allocated a.status ≡ false
      → Achieves P (λ _. ⊥) (ship_linked env context t at n a)
  unfolding ship_linked
  ship_linked-refuses n a h =
      Achieves-throw_if _ _ _ λ e. absurd (not_allocated (is_allocated a.status) h e)

  pub ship_all_linked-refuses :
      {P : Db → Type 0} (n : ℕ) (l : List Allocation)
      → any (λ (a : Allocation). not (is_allocated a.status)) l ≡ true
      → Achieves P (λ _. ⊥) (ship_all_linked env context t at n l)
  unfolding ship_all_linked
  ship_all_linked-refuses n [] h = cc h
  ship_all_linked-refuses n (a ∷ l) h = elim (Bool-cases (is_allocated a.status)) [
    | inl e ↦
        Achieves-of (λ db p. tt)
          (Achieves-keeps {P = λ _. Unit} _ _
            (Keeps-of (Achieves-const (ship_linked env context t at n a) tt))
            λ _. ship_all_linked-refuses (suc n) l (ground (arith, h, e)))
    | inr e ↦ Achieves-done _ _ (ship_linked-refuses n a e) λ _. record { at = λ db p. absurd p }
  ]
