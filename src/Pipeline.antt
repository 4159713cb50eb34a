-- ===== src/Pipeline.antt =====
-- The warehouse service and the relay together: the service's calls
-- (apps/wms-service/src/wms/wms.service.ts) fill the outbox that the relay
-- (apps/outbox-relay-service/src) empties.
pub mod Tests
use multi_tenant.Base.{
  ℕ, Bool, true, ◌≡◌, Option, some, List, [], ◌∷◌, map, contains, update_where, select, All,
  if_both, if◌then◌else◌,
}
use multi_tenant.Json.{Json, instant}
use multi_tenant.Outbox.{OutboxEvent}
use multi_tenant.Relay.Source.{
  ClaimPendingEventsParams, to_claimed_event, lock_row, candidates, outbox_ids, claim_rows,
  claim_pending_events,
}
use multi_tenant.Relay.Source.Locks.{All-select, All-to_claimed_event}
use multi_tenant.Relay.Envelope.{valid, validate_claimed_event_envelope}
use multi_tenant.Relay.Envelope.Accepts.{outbox_row-valid}
use multi_tenant.Relay.Worker.{WorkerConfig, Round, Relay, process_source, claim_params}
use multi_tenant.Relay.Worker.Delivery.{IsSmooth, ArePublished, process_source-delivers}
use multi_tenant.Wms.Effects.{Keeps}
use multi_tenant.Wms.Types.{StockKey, Db, Env, Context}
use multi_tenant.Effects.Keeps.{Keeps-modify}
use multi_tenant.Wms.Inventory.{Movement, move_balance, write_movement}
use multi_tenant.Wms.Inventory.Audit.{move_balance_rule}
use multi_tenant.Wms.Outbound.{has_remaining, refresh_outbound_order_status}
use multi_tenant.Wms.Service.{Call, serve}
use multi_tenant.Wms.Events.{event}
use multi_tenant.Wms.Service.Writes.{Writes, serve_induction}

-- The relay that starts on an outbox.
abbrev pub relay_on : List OutboxEvent → Relay
relay_on rows = record {
  rows = rows;
  sent = [];
  published_count = 0;
  retry_count = 0;
  failed_count = 0;
}

-- The tenant header of the call is spelled in lower case.
abbrev pub SpellsLower : Call → Type 0
SpellsLower c = c.context.tenant_is_lower ≡ true

module _ (is_date : Option Json → Bool) where
  abbrev IsValid : OutboxEvent → Type 0
  IsValid row = validate_claimed_event_envelope is_date (to_claimed_event row) row.payload ≡ valid

  module _ (reads : (at : ℕ) → is_date (some (instant at)) ≡ true) where
    Writes-outbox :
        (env : Env) (context : Context)
        → context.tenant_is_lower ≡ true
        → Writes (λ db. All IsValid db.outbox) env context
    unfolding write_movement refresh_outbound_order_status
    Writes-outbox env context lower = record {
      moves = λ id k command. record {
        at = λ db h.
            move_balance_rule (λ d. All IsValid d.outbox) id env.now k command db (λ _ _. h);
      };
      events = λ t ty at id payload. Keeps-modify _ (λ db h. (
        (outbox_row-valid is_date reads "wms-service" env.outbox_id env.event_id env.now
              (event t context ty at id payload)).1
            lower,
        h,
      ));
      warehouse = λ w. Keeps-modify _ (λ db h. h);
      location = λ l. Keeps-modify _ (λ db h. h);
      item = λ i. Keeps-modify _ (λ db h. h);
      adjustment = λ a. Keeps-modify _ (λ db h. h);
      receipt = λ r. Keeps-modify _ (λ db h. h);
      order = λ t w n. Keeps-modify _ (λ db h. h);
      order_update = λ id f. Keeps-modify _ (λ db h. h);
      order_refresh = λ t id at.
          Keeps-modify _
            (λ db h. if_both (λ (d : Db). All IsValid d.outbox) (has_remaining t id db) h h);
      allocation = λ o k i. Keeps-modify _ (λ db h. h);
      allocation_shipped = λ id by at. Keeps-modify _ (λ db h. h);
      packing = λ p. Keeps-modify _ (λ db h. h);
      packing_update = λ id f. Keeps-modify _ (λ db h. h);
      box = λ g. Keeps-modify _ (λ db h. h);
      shipment = λ x. Keeps-modify _ (λ db h. h);
      run = λ r. Keeps-modify _ (λ db h. h);
      run_update = λ id f. Keeps-modify _ (λ db h. h);
      snapshots = λ l. Keeps-modify _ (λ db h. h);
    }

    serve-IsValid :
        (calls : List Call) (db : Db)
        → All SpellsLower calls
        → All IsValid db.outbox
        → All IsValid (serve calls db).outbox
    serve-IsValid =
        serve_induction {P = λ d. All IsValid d.outbox} {Allowed = SpellsLower}
          λ c lower. Writes-outbox c.env c.context lower

  -- A lock leaves the envelope valid.
  All-locked :
      (params : ClaimPendingEventsParams) (p : OutboxEvent → Bool) (rows : List OutboxEvent)
      → All IsValid rows
      → All IsValid (update_where p (lock_row params) rows)
  All-locked params p [] h = tt
  All-locked params p (r ∷ rows) h = (if_both IsValid (p r) h.0 h.0, All-locked params p rows h.1)

  claim-IsValid :
      (locked : ℕ → Bool) (params : ClaimPendingEventsParams) (rows : List OutboxEvent)
      → All IsValid rows
      → All
          (λ e. validate_claimed_event_envelope is_date e e.payload ≡ valid)
          (claim_pending_events locked params rows).1
  unfolding claim_pending_events claim_rows
  claim-IsValid locked params rows h =
      All-to_claimed_event _ _ (All-select IsValid _ _ (All-locked params _ rows h))

-- If `Date.parse` reads what `toISOString` makes: after any history of the warehouse service's
-- calls with tenant headers in lower case, on a database with an empty outbox, a run of the relay's worker in which the publisher
-- accepts everything and every statement takes effect publishes and unlocks every row whose id it
-- claims.
pub serve-delivers :
    (is_date : Option Json → Bool)
    → ((at : ℕ) → is_date (some (instant at)) ≡ true)
    → (calls : List Call) (db : Db) → All SpellsLower calls
    → db.outbox ≡ []
    → (config : WorkerConfig) (worker_id : ℕ) (locked : ℕ → Bool) (now : ℕ) (rounds : ℕ → Round)
    → IsSmooth rounds
    → (let relay = relay_on (serve calls db).outbox in
        All
          (λ e.
            ArePublished e.outbox_id
              (process_source config worker_id is_date locked now rounds relay).relay.rows)
          (claim_pending_events locked (claim_params config worker_id is_date now) relay.rows).1)
serve-delivers is_date reads calls db lower e config worker_id locked now rounds smooth =
    process_source-delivers config worker_id is_date locked now rounds
      (relay_on (serve calls db).outbox) smooth
      (claim-IsValid is_date locked (claim_params config worker_id is_date now)
        (serve calls db).outbox (serve-IsValid is_date reads calls db lower (rw e tt)))
