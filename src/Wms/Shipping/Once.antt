-- ===== src/Wms/Shipping/Once.antt =====
-- An allocation is shipped at most once, by itself or through a packing.
use multi_tenant.Base.{ℕ, true, ◌≡◌, ◌≢◌, ◌⊎◌, inl, inr, none, some, List, contains, All}
use multi_tenant.Wms.Effects.{Achieves}
use multi_tenant.Wms.Types.{Allocation, Packing, Shipment, Db, Env, Context}
use multi_tenant.Wms.Effects.{ok}
use multi_tenant.Effects.Keeps.{keeps_rules}
use multi_tenant.Effects.Achieves.{Achieves-done, Achieves-throw_if, Achieves-ok, Achieves-of}
use multi_tenant.Wms.Access.{Clients}
use multi_tenant.Wms.Packing.{find_packing}
use multi_tenant.Wms.Shipping.{
  ShipmentInput, ship_outbound_allocation, ship_outbound_packing, check_shipment, ship_by_ids,
  ship_outbound,
}
use multi_tenant.Wms.Shipping.Settled.{has_row, IsSettled, IsSettled-ship_row, IsSettled-cons}
use multi_tenant.Wms.Service.{Call, serve}
use multi_tenant.Wms.Service.Writes.{serve_induction}
use multi_tenant.Wms.Service.Allocations.{Writes-allocations}
use multi_tenant.Wms.Shipping.Branches.{
  IsPacked, ship_outbound_allocation-settles, ship_outbound_allocation-refuses,
  ship_outbound_packing-settles, ship_outbound_packing-refuses,
}

-- The request is for a packing of the tenant that links to the allocation, whose row is there.
pub record NamesPacking (t id : ℕ) (input : ShipmentInput) (db : Db) : Type 0 where
  pub packing_id : ℕ
  pub packing : Packing
  pub requested : input.packing_id ≡ some packing_id
  pub found : find_packing t packing_id db ≡ some packing
  pub links : contains id packing.allocation_ids ≡ true
  pub there : has_row id db.allocations ≡ true

-- The request is for the allocation itself, or for such a packing.
abbrev pub Names : ℕ → ℕ → ShipmentInput → Db → Type 0
Names t id input db =
    ((input.packing_id ≡ none) × (input.allocation_id ≡ some id)) ⊎ NamesPacking t id input db

-- No call with a fresh id, whatever it does, takes a settled allocation back.
serve-IsSettled :
    (id : ℕ) (calls : List Call) (db : Db)
    → All (λ c. c.env.row_id ≢ id) calls
    → IsSettled id db.allocations
    → IsSettled id (serve calls db).allocations
serve-IsSettled id =
    serve_induction {P = λ db. IsSettled id db.allocations} {Allowed = λ c. c.env.row_id ≢ id}
      (λ c fresh.
        Writes-allocations (IsSettled id) c.env c.context
          (λ o k i l h. IsSettled-cons id _ l fresh h)
          (λ i by at l h. IsSettled-ship_row id i by at l h))

module _ {P Q : Db → Type 0} (clients : Clients) (env : Env) (context : Context) (seen : Db)
    (t id : ℕ) (input : ShipmentInput)
    (direct : Achieves P Q (ship_outbound_allocation clients env context seen id input.details))
    (packed : (packing_id : ℕ) (packing : Packing)
      → contains id packing.allocation_ids ≡ true
      → Achieves
          (λ db. P db × IsPacked t id packing_id packing db)
          Q
          (ship_outbound_packing clients env context seen packing_id input.details)) where
  ship_by_ids_of_allocation :
      input.packing_id ≡ none
      → input.allocation_id ≡ some id
      → Achieves P Q
          (ship_by_ids clients env context seen input.allocation_id input.packing_id input.details)
  unfolding ship_by_ids
  ship_by_ids_of_allocation e f = rw (e, f) (Achieves-done _ _ direct λ _. search keeps_rules)

  ship_by_ids_of_packing :
      (packing_id : ℕ) (packing : Packing)
      → input.packing_id ≡ some packing_id
      → contains id packing.allocation_ids ≡ true
      → Achieves
          (λ db. P db × IsPacked t id packing_id packing db)
          Q
          (ship_by_ids clients env context seen input.allocation_id input.packing_id input.details)
  unfolding ship_by_ids
  ship_by_ids_of_packing packing_id packing e links =
      rw e (Achieves-done _ _ (packed packing_id packing links) λ _. search keeps_rules)

  -- A request for an allocation does what its own shipment and that of a packing do.
  ship_outbound-Achieves :
      Achieves (λ db. P db × Names t id input db) Q (ship_outbound clients env context seen input)
  unfolding ship_outbound check_shipment
  ship_outbound-Achieves = Achieves-throw_if _ _ _ λ _. record {
    at = λ db p. elim p.1 [
      | inl e ↦ (ship_by_ids_of_allocation e.0 e.1).at db p.0
      | inr n ↦
          (ship_by_ids_of_packing n.packing_id n.packing n.requested n.links).at db
            (p.0, (n.found, n.there))
    ];
  }

-- Once a shipment of an allocation has returned, which is one of the allocation itself or of a
-- packing that links to it, no history of calls whose generated ids differ from the allocation's makes
-- another shipment of it possible, by itself or through a packing, by a user of any tenant.
pub ship_once :
    (clients clients' : Clients) (env env' : Env) (context context' : Context) (seen seen' : Db)
    (id t t' : ℕ) (input input' : ShipmentInput) (calls : List Call) (db db' db'' : Db)
    (result result' : Allocation ⊎ Shipment)
    → context.tenant_id ≡ some t
    → context'.tenant_id ≡ some t'
    → All (λ c. c.env.row_id ≢ id) calls
    → Names t id input db
    → ship_outbound clients env context seen input db ≡ ok (result, db')
    → Names t' id input' (serve calls db')
    → ¬ (ship_outbound clients' env' context' seen' input' (serve calls db') ≡ ok (result', db''))
ship_once clients clients' env env' context context' seen seen' id t t' input input' calls db db'
      db'' result result' h h' fresh names first names' second =
    Achieves-ok (serve calls db') db'' result'
      (ship_outbound-Achieves {P = λ d. IsSettled id d.allocations} clients' env' context' seen' t'
        id input' (ship_outbound_allocation-refuses clients' env' context' seen' id input'.details)
        (λ i p links.
          ship_outbound_packing-refuses clients' env' context' seen' t' id i p links input'.details
            h'))
      (settled, names') second
  where
    settled : IsSettled id (serve calls db').allocations
    settled = serve-IsSettled id calls db' fresh (
        Achieves-ok db db' result
          (ship_outbound-Achieves {P = λ _. Unit} {Q = λ d. IsSettled id d.allocations} clients env
            context seen t id input
            (ship_outbound_allocation-settles clients env context seen id input.details)
            (λ i p links.
              Achieves-of (λ db p. p.1)
                (ship_outbound_packing-settles clients env context seen t id i p links input.details
                  h)))
          (tt, names) first)
