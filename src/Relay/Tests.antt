-- ===== src/Relay/Tests.antt =====
-- The relay on concrete rows.
use multi_tenant.Base.{
  ◌↔◌, ℕ, zero, suc, ◌*◌, ◌≤◌, Bool, true, false, ◌≡◌, refl, Option, none, some, List, [], ◌∷◌,
  ◌==◌, All, arith,
}
use multi_tenant.Json.{Json, null, instant}
use multi_tenant.Outbox.{OutboxEvent, OutboxEventCommand, outbox_row}
use multi_tenant.Relay.Source.{
  ClaimPendingEventsParams, claim_pending_events, claim_rows, candidates,
}
use multi_tenant.Relay.Source.Locks.{claim_pending_events-disjoint}
use multi_tenant.Relay.Envelope.{valid, validate_claimed_event_envelope, check_fields}
use multi_tenant.Relay.Envelope.Accepts.{outbox_row-valid}
use multi_tenant.Relay.Source.{to_claimed_event}
use multi_tenant.Relay.Worker.{
  WorkerConfig, Round, Relay, applied, delay_seconds, min, process_source,
}
use multi_tenant.Relay.Worker.Backoff.{delay_seconds-doubles}
use multi_tenant.Relay.Worker.Safety.{AreFine}
use multi_tenant.Relay.Worker.Delivery.{IsSmooth, ArePublished, process_source-delivers}
use multi_tenant.Relay.Worker.Runs.{process_source-AreFine}
use multi_tenant.Uuid.{of_column}

abbrev command : OutboxEventCommand
command = record {
  context = record { tenant_id = of_column 1; user_id = some 7; request_id = none };
  event_type = "wms.inbound.confirmed";
  aggregate_type = "inbound_receipt";
  aggregate_id = 100;
  payload_data = null;
  schema_version = none;
}

abbrev pub is_date : Option Json → Bool
is_date (some (instant at)) = true
is_date (some _) = false
is_date none = false

abbrev rows : List OutboxEvent
rows = outbox_row "wms-service" 2 20 200 command ∷ outbox_row "wms-service" 1 10 100 command ∷ []

abbrev params : ℕ → ℕ → ClaimPendingEventsParams
params worker now = record {
  batch_size = 20;
  worker_id = worker;
  now = now;
  lock_timeout_seconds = 60;
}

abbrev pub unlocked : ℕ → Bool
unlocked i = false

outbox_row-valid_example :
    (validate_claimed_event_envelope is_date
        (to_claimed_event (outbox_row "wms-service" 1 10 100 command))
        (outbox_row "wms-service" 1 10 100 command).payload
      ≡ valid)
    ↔ (true ≡ true)
outbox_row-valid_example = outbox_row-valid is_date (λ at. refl) "wms-service" 1 10 100 command

claim_pending_events-disjoint_example :
    All
      (λ e.
        All
          (λ e'. (e.outbox_id == e'.outbox_id) ≡ false)
          (claim_pending_events unlocked
            (params 9 30000)
            (claim_pending_events unlocked (params 8 1000) rows).0).1)
      (claim_pending_events unlocked (params 8 1000) rows).1
claim_pending_events-disjoint_example =
    claim_pending_events-disjoint unlocked unlocked (params 8 1000) (params 9 30000) rows
      (omega arith)

delay_seconds-doubles_example :
    (delay_seconds 1 ≡ 5)
    × (delay_seconds 4 ≡ min 300 (2 * delay_seconds 3))
    × (5 ≤ delay_seconds 2)
    × (delay_seconds 2 ≤ 300)
delay_seconds-doubles_example = delay_seconds-doubles 2

abbrev pub config : WorkerConfig
config = record { batch_size = 20; max_retry_count = 5; lock_timeout_seconds = 60 }

-- The publisher accepts the first event and refuses the second.
abbrev rounds : ℕ → Round
rounds zero = record {
  now = 1001;
  publish = λ payload. some "target";
  published_reply = applied;
  failed_reply = applied;
  error = "error";
}
rounds (suc n) = record {
  now = 1002;
  publish = λ payload. none;
  published_reply = applied;
  failed_reply = applied;
  error = "error";
}

abbrev relay : Relay
relay = record { rows = rows; sent = []; published_count = 0; retry_count = 0; failed_count = 0 }

process_source-AreFine_example :
    AreFine 5
      (process_source config 8 is_date unlocked 1000 rounds relay).relay.sent
      rows
      (process_source config 8 is_date unlocked 1000 rounds relay).relay.rows
unfolding outbox_row
process_source-AreFine_example =
    process_source-AreFine config 8 is_date unlocked 1000 rounds relay (refl, (refl, tt))
      (omega arith, (omega arith, tt))

abbrev pub all_accepted : ℕ → Round
all_accepted n = rounds 0

pub all_accepted-IsSmooth : IsSmooth all_accepted
all_accepted-IsSmooth = record { accepts = λ n payload. refl; applies = λ n. refl }

process_source-delivers_example :
    All
      (λ e.
        ArePublished e.outbox_id
          (process_source config 8 is_date unlocked 1000 all_accepted relay).relay.rows)
      (claim_pending_events unlocked (params 8 1000) rows).1
unfolding claim_pending_events claim_rows candidates outbox_row validate_claimed_event_envelope
    check_fields
process_source-delivers_example =
    process_source-delivers config 8 is_date unlocked 1000 all_accepted relay all_accepted-IsSmooth
      (refl, (refl, tt))
