-- ===== src/Wms/Shipping/Branches.antt =====
-- What the two branches of `shipOutbound` do to an allocation that they ship.
use multi_tenant.Base.{
  ℕ, Bool, true, not, ◌&&◌, ◌≡◌, ap, sym, subst, ◌∙◌, Option, some, List, ◌==◌, ==→eq, find-test,
  any, find, contains, arith,
}
use multi_tenant.Wms.Effects.{Achieves}
use multi_tenant.Wms.Types.{Allocation, Packing, Db, Env, Context}
use multi_tenant.Effects.Keeps.{Keeps-modify}
use multi_tenant.Effects.Achieves.{
  Achieves-keeps, Achieves-done, Achieves-gets, Achieves-or_throw, Achieves-throw_if,
  Achieves-modify, Achieves-absurd, Achieves-of, Achieves-given,
}
use multi_tenant.Wms.Access.{Clients}
use multi_tenant.Wms.Access.Granted.{Achieves-authorize, Achieves-require_tenant}
use multi_tenant.Wms.Events.{record_event}
use multi_tenant.Wms.Inventory.{apply_shipment, apply_inventory_movement}
use multi_tenant.Wms.Outbound.{is_allocated}
use multi_tenant.Wms.Packing.{find_packing, linked_allocations}
use multi_tenant.Wms.Shipping.{ShipmentDetails, ship_outbound_allocation, ship_outbound_packing}
use multi_tenant.Wms.Shipping.Settled.{has_row, IsSettled, settle-found, find-settled, any-linked}
use multi_tenant.Wms.Service.Guards.{guard_rules}
use multi_tenant.Wms.Service.Allocations.{
  move_balance-allocations, refresh_outbound_order_status-allocations,
}
use multi_tenant.Wms.Shipping.Loop.{not_allocated, ship_all_linked-settles, ship_all_linked-refuses}

-- The packing is there, and so is the allocation that it links to.
abbrev pub IsPacked : ℕ → ℕ → ℕ → Packing → Db → Type 0
IsPacked t id packing_id packing db =
    (find_packing t packing_id db ≡ some packing) × (has_row id db.allocations ≡ true)

abbrev row_of : ℕ → ℕ → List Allocation → Option Allocation
row_of t id = find (λ a. a.id == id && a.tenant_id == t)

and_left : (a b : Bool) → (a && b) ≡ true → a ≡ true
and_left a b h = ground (arith, h)

module _ (clients : Clients) (env : Env) (context : Context) (seen : Db) (id : ℕ)
    (details : ShipmentDetails) where
  -- A shipment that returns settles the allocation.
  pub ship_outbound_allocation-settles :
      Achieves
        (λ _. Unit)
        (λ db. IsSettled id db.allocations)
        (ship_outbound_allocation clients env context seen id details)
  unfolding ship_outbound_allocation record_event apply_shipment apply_inventory_movement
  ship_outbound_allocation-settles = Achieves-require_tenant clients context _ λ t' h'.
      Achieves-or_throw _ _ _ λ scope e. Achieves-authorize clients context _ _ _ λ t'' h.
        Achieves-gets _ _ λ found. Achieves-or_throw found _ _ λ current f.
          Achieves-throw_if _ _ _ λ allocated. Achieves-keeps _ _ (Keeps-modify _ (λ db p. p)) λ _.
            Achieves-keeps _ _
              (search
                (guard_rules, move_balance-allocations (λ l. Unit {0} × (row_of t'' id l ≡ found))))
              λ _.
                Achieves-done _ _
                  (Achieves-modify _ (λ db p.
                    settle-found id _ (λ a e. ==→eq a.id id (and_left _ _ e)) _ _ db.allocations
                      current (p.1 ∙ f)))
                  λ _. search (
                    guard_rules,
                    Keeps-modify,
                    refresh_outbound_order_status-allocations (IsSettled id),
                  )

  -- A settled allocation is not shipped.
  pub ship_outbound_allocation-refuses :
      Achieves
        (λ db. IsSettled id db.allocations)
        (λ _. ⊥)
        (ship_outbound_allocation clients env context seen id details)
  unfolding ship_outbound_allocation
  ship_outbound_allocation-refuses = Achieves-require_tenant clients context _ λ t' h'.
      Achieves-or_throw _ _ _ λ scope e. Achieves-authorize clients context _ _ _ λ t'' h.
        Achieves-gets _ _ λ found. Achieves-or_throw found _ _ λ current f.
          Achieves-throw_if _ _ _ λ allocated. Achieves-absurd (λ db p.
            not_allocated (is_allocated current.status)
              (find-settled id _ (λ a e. ==→eq a.id id (and_left _ _ e)) db.allocations current
                p.0.settled (p.1 ∙ f))
              allocated)

module _ (clients : Clients) (env : Env) (context : Context) (seen : Db) (t id packing_id : ℕ)
    (packing : Packing) (links : contains id packing.allocation_ids ≡ true)
    (details : ShipmentDetails) (header : context.tenant_id ≡ some t) where
  -- What the packing that is read links to.
  linked-eq :
      (db : Db) (t' : ℕ) (found : Option Packing) (current : Packing) (linked : List Allocation)
      → context.tenant_id ≡ some t'
      → find_packing t packing_id db ≡ some packing
      → find_packing t' packing_id db ≡ found
      → found ≡ some current
      → linked_allocations db current ≡ linked
      → linked ≡ linked_allocations db packing
  linked-eq db t' found current linked h there e f g =
      sym g
      ∙ ap (linked_allocations db) (
          same (
            sym f
            ∙ sym e
            ∙ ap (λ x. find_packing x packing_id db) (same_tenant (sym h ∙ header))
            ∙ there))
    where
      same : {p q : Packing} → some p ≡ some q → p ≡ q
      same e = cc e

      same_tenant : {a b : ℕ} → some a ≡ some b → a ≡ b
      same_tenant e = cc e

  -- Its shipment settles the allocation.
  pub ship_outbound_packing-settles :
      Achieves
        (IsPacked t id packing_id packing)
        (λ db. IsSettled id db.allocations)
        (ship_outbound_packing clients env context seen packing_id details)
  unfolding ship_outbound_packing record_event
  ship_outbound_packing-settles = Achieves-require_tenant clients context _ λ t' h'.
      Achieves-or_throw _ _ _ λ scope e. Achieves-authorize clients context _ _ _ λ t'' h.
        Achieves-gets _ _ λ found. Achieves-or_throw found _ _ λ current f.
          Achieves-throw_if _ _ _ λ _. Achieves-throw_if _ _ _ λ _. Achieves-gets _ _ λ linked.
            Achieves-given {C = has_row id linked ≡ true}
              (λ db p.
                subst (λ l. has_row id l ≡ true)
                  (sym (linked-eq db t'' found current linked h p.0.0.0 p.0.1 f p.1))
                  (any-linked id (λ a. a.id == id) db.allocations p.0.0.1
                    (λ a. find-test (λ x. x.id == id) db.allocations a) packing.allocation_ids
                    links))
              λ names.
                Achieves-of {P = λ db. has_row id db.allocations ≡ true} (λ db p. p.0.0.1)
                  (Achieves-keeps _ _ (Keeps-modify _ (λ db p. p)) λ _.
                    Achieves-done _ _ (ship_all_linked-settles env context t'' _ id 0 linked names)
                      λ _. search (
                        guard_rules,
                        Keeps-modify,
                        refresh_outbound_order_status-allocations (IsSettled id),
                      ))

  -- It does not return for a settled one.
  pub ship_outbound_packing-refuses :
      Achieves
        (λ db. IsSettled id db.allocations × IsPacked t id packing_id packing db)
        (λ _. ⊥)
        (ship_outbound_packing clients env context seen packing_id details)
  unfolding ship_outbound_packing
  ship_outbound_packing-refuses = Achieves-require_tenant clients context _ λ t' h'.
      Achieves-or_throw _ _ _ λ scope e. Achieves-authorize clients context _ _ _ λ t'' h.
        Achieves-gets _ _ λ found. Achieves-or_throw found _ _ λ current f.
          Achieves-throw_if _ _ _ λ _. Achieves-throw_if _ _ _ λ _. Achieves-gets _ _ λ linked.
            Achieves-given {C = any (λ (a : Allocation). not (is_allocated a.status)) linked ≡ true}
              (λ db p.
                subst (λ l. any (λ (a : Allocation). not (is_allocated a.status)) l ≡ true)
                  (sym (linked-eq db t'' found current linked h p.0.0.1.0 p.0.1 f p.1))
                  (any-linked id _ db.allocations p.0.0.1.1
                    (λ a e. ap not (
                      find-settled id _ (λ b k. ==→eq b.id id k) db.allocations a p.0.0.0.settled
                        e))
                    packing.allocation_ids links))
              λ closed.
                Achieves-of {P = λ _. Unit} (λ db p. tt)
                  (Achieves-keeps _ _ (Keeps-modify _ (λ db p. p)) λ _.
                    Achieves-done _ _ (ship_all_linked-refuses env context t'' _ 0 linked closed)
                      λ _. record { at = λ db p. absurd p })
