-- ===== src/Relay/Worker.antt =====
-- The worker: apps/outbox-relay-service/src/relay/relay-worker.service.ts, and the counters of
-- relay-status.service.ts. A run is a sequence of statements on the table, each of which may fail.
pub mod Backoff
pub mod Safety
pub mod Runs
pub mod Delivery
use multi_tenant.Base.{
  ℕ, zero, suc, ◌+◌, ◌*◌, ◌^◌, ◌-◌, String, Bool, true, false, Option, none, some, List, [], ◌∷◌,
  leb, if◌then◌else◌,
}
use multi_tenant.Json.{Json}
use multi_tenant.Outbox.{OutboxEvent, OutboxStatus, pending, failed}
use multi_tenant.Relay.Source.{
  ClaimPendingEventsParams, ClaimedOutboxEvent, MarkPublishedParams, MarkPublishFailedParams,
  claim_pending_events, mark_published, mark_publish_failed,
}
use multi_tenant.Relay.Envelope.{Checked, valid, invalid, validate_claimed_event_envelope}

pub record WorkerConfig : Type 0 where
  pub batch_size : ℕ
  pub max_retry_count : ℕ
  pub lock_timeout_seconds : ℕ

-- What a statement of SQL reports: it took effect; it did not and threw; it did and the reply
-- was lost, so that it threw as well.
pub data Reply : Type 0 where
  applied refused lost : Reply

-- What the surroundings of one event's processing supply.
pub record Round : Type 0 where
  pub now : ℕ
  -- the publisher: the target, or `none` if it throws
  pub publish : Json → Option String
  pub published_reply : Reply
  pub failed_reply : Reply
  -- the message of a caught error, sanitized
  pub error : String

-- The table, the counters, and the envelopes that the publisher has accepted, by outbox id.
pub record Relay : Type 0 where
  pub rows : List OutboxEvent
  pub sent : List (ℕ × Json)
  pub published_count : ℕ
  pub retry_count : ℕ
  pub failed_count : ℕ

-- What a call leaves, and whether it returned or threw.
pub record Outcome : Type 0 where
  pub relay : Relay
  pub is_returned : Bool

abbrev pub returned : Relay → Outcome
returned r = record { relay = r; is_returned = true }

abbrev pub thrown : Relay → Outcome
thrown r = record { relay = r; is_returned = false }

abbrev pub min : ℕ → ℕ → ℕ
min a b = if leb a b then a else b

-- `Math.min(300, 2 ** Math.max(0, retryCount - 1) * 5)`
unfoldable pub delay_seconds : ℕ → ℕ
delay_seconds retry_count = min 300 (2 ^ (retry_count - 1) * 5)

unfoldable pub calculate_next_retry_at : ℕ → ℕ → ℕ
calculate_next_retry_at now retry_count = now + delay_seconds retry_count * 1000

module _ (config : WorkerConfig) (worker_id : ℕ) where
  abbrev pub is_exhausted : ClaimedOutboxEvent → Bool
  is_exhausted event = leb config.max_retry_count (suc event.retry_count)

  abbrev pub failed_params : Round → ClaimedOutboxEvent → MarkPublishFailedParams
  failed_params round event = record {
    outbox_id = event.outbox_id;
    worker_id = worker_id;
    retry_count = suc event.retry_count;
    status = if is_exhausted event then failed else pending;
    last_error = round.error;
    next_retry_at =
        if is_exhausted event
        then none
        else some (calculate_next_retry_at round.now (suc event.retry_count));
  }

  abbrev pub published_params : Round → ClaimedOutboxEvent → String → MarkPublishedParams
  published_params round event target = record {
    outbox_id = event.outbox_id;
    worker_id = worker_id;
    published_at = round.now;
    published_target = target;
  }

  -- `relayStatusService.markFailed`
  abbrev pub count_failed : ClaimedOutboxEvent → Relay → Relay
  count_failed event r =
      if is_exhausted event
      then record r { failed_count = suc r.failed_count }
      else record r { retry_count = suc r.retry_count }

  -- The `catch` of `processEvent`.
  unfoldable pub catch_error : Round → ClaimedOutboxEvent → Reply → Relay → Outcome
  catch_error round event applied r = returned (
      count_failed event
        (record r { rows = mark_publish_failed (failed_params round event) r.rows }))
  catch_error round event refused r = thrown r
  catch_error round event lost r =
      thrown (record r { rows = mark_publish_failed (failed_params round event) r.rows })

  -- From `markPublished` on, when the publisher has returned a target.
  unfoldable pub finish_publish : Round → ClaimedOutboxEvent → String → Reply → Relay → Outcome
  finish_publish round event target applied r = returned (record r {
    rows = mark_published (published_params round event target) r.rows;
    published_count = suc r.published_count;
  })
  finish_publish round event target refused r = catch_error round event round.failed_reply r
  finish_publish round event target lost r =
      catch_error round event round.failed_reply
        (record r { rows = mark_published (published_params round event target) r.rows })

  unfoldable pub publish_event : Round → ClaimedOutboxEvent → Option String → Relay → Outcome
  publish_event round event none r = catch_error round event round.failed_reply r
  publish_event round event (some target) r =
      finish_publish round event target round.published_reply
        (record r { sent = (event.outbox_id, event.payload) ∷ r.sent })

  module _ (is_date : Option Json → Bool) where
    abbrev pub process_checked : Round → ClaimedOutboxEvent → Checked → Relay → Outcome
    process_checked round event valid r = publish_event round event (round.publish event.payload) r
    process_checked round event (invalid field) r = catch_error round event round.failed_reply r

    unfoldable pub process_event : Round → ClaimedOutboxEvent → Relay → Outcome
    process_event round event r =
        process_checked round event (validate_claimed_event_envelope is_date event event.payload) r

    -- The loop of `processSource`, which an exception ends. `n` counts the rounds.
    unfoldable pub process_events : (ℕ → Round) → ℕ → List ClaimedOutboxEvent → Relay → Outcome
    process_events rounds n [] r = returned r
    process_events rounds n (event ∷ events) r =
        let one = process_event (rounds n) event r in
        let rest = process_events rounds (suc n) events one.relay in
        if one.is_returned then rest else one

    abbrev pub claim_params : ℕ → ClaimPendingEventsParams
    claim_params now = record {
      batch_size = config.batch_size;
      worker_id = worker_id;
      now = now;
      lock_timeout_seconds = config.lock_timeout_seconds;
    }

    unfoldable pub process_source : (ℕ → Bool) → ℕ → (ℕ → Round) → Relay → Outcome
    process_source is_row_locked now rounds r =
        let claimed = claim_pending_events is_row_locked (claim_params now) r.rows in
        process_events rounds 0 (claimed.1) (record r { rows = claimed.0 })
