-- ===== src/Relay/Source.antt =====
-- The statements on the table `outbox_events`:
-- apps/outbox-relay-service/src/sources/postgres-outbox-source.adapter.ts. Each is one statement of
-- SQL, on the rows that it sees.
pub mod Locks
pub mod Chosen
use multi_tenant.Base.{
  ℕ, zero, suc, ◌+◌, ◌*◌, String, Bool, true, false, ◌&&◌, not, Option, none, some, List, [], ◌∷◌,
  map, ◌==◌, leb, select, contains, update_where, if◌then◌else◌,
}
use multi_tenant.Json.{Json}
use multi_tenant.Outbox.{OutboxEvent, OutboxStatus, pending, published, failed}

pub record ClaimPendingEventsParams : Type 0 where
  pub batch_size : ℕ
  pub worker_id : ℕ
  pub now : ℕ
  pub lock_timeout_seconds : ℕ

pub record ClaimedOutboxEvent : Type 0 where
  pub outbox_id : ℕ
  pub event_id : ℕ
  pub event_type : String
  pub schema_version : ℕ
  pub tenant_id : ℕ
  pub request_id : String
  pub source : String
  pub aggregate_type : String
  pub aggregate_id : ℕ
  pub payload : Json
  pub retry_count : ℕ
  pub created_at : ℕ

abbrev pub to_claimed_event : OutboxEvent → ClaimedOutboxEvent
to_claimed_event row = record {
  outbox_id = row.outbox_id;
  event_id = row.event_id;
  event_type = row.event_type;
  schema_version = row.schema_version;
  tenant_id = row.tenant_id;
  request_id = row.request_id;
  source = row.source;
  aggregate_type = row.aggregate_type;
  aggregate_id = row.aggregate_id;
  payload = row.payload;
  retry_count = row.retry_count;
  created_at = row.created_at;
}

abbrev pub is_pending : OutboxStatus → Bool
is_pending pending = true
is_pending published = false
is_pending failed = false

-- `column IS NULL OR column + duration <= now`
abbrev pub is_null_or_before : Option ℕ → ℕ → ℕ → Bool
is_null_or_before none duration now = true
is_null_or_before (some at) duration now = leb (at + duration) now

-- The condition of the candidates. `locked_at <= now - timeout` is written with a sum.
abbrev pub is_claimable : ClaimPendingEventsParams → OutboxEvent → Bool
is_claimable params row =
    is_pending row.status
    && (is_null_or_before row.next_retry_at 0 params.now
        && is_null_or_before row.locked_at (params.lock_timeout_seconds * 1000) params.now)

-- `ORDER BY created_at ASC`
abbrev pub insert_row : OutboxEvent → List OutboxEvent → List OutboxEvent
insert_row row [] = row ∷ []
insert_row row (r ∷ rows) =
    let rest = insert_row row rows in
    if leb row.created_at r.created_at then row ∷ r ∷ rows else r ∷ rest

abbrev pub order_by_created_at : List OutboxEvent → List OutboxEvent
order_by_created_at [] = []
order_by_created_at (row ∷ rows) = insert_row row (order_by_created_at rows)

-- `LIMIT n`
abbrev pub limit : ℕ → List OutboxEvent → List OutboxEvent
limit n [] = []
limit zero (row ∷ rows) = []
limit (suc n) (row ∷ rows) = row ∷ limit n rows

-- `SKIP LOCKED`: the rows that another transaction has locked at the moment are passed over.
unfoldable pub candidates :
    (ℕ → Bool) → ClaimPendingEventsParams → List OutboxEvent → List OutboxEvent
candidates is_row_locked params rows = limit params.batch_size (
    order_by_created_at
      (select (λ row. is_claimable params row && not (is_row_locked row.outbox_id)) rows))

abbrev pub outbox_ids : List OutboxEvent → List ℕ
outbox_ids = map (λ row. row.outbox_id)

abbrev pub lock_row : ClaimPendingEventsParams → OutboxEvent → OutboxEvent
lock_row params row = record row { locked_at = some params.now; locked_by = some params.worker_id }

-- The table after `claimRows`, and the rows that it returns, in the order of the table: the
-- statement promises none.
unfoldable pub claim_rows :
    (ℕ → Bool) → ClaimPendingEventsParams → List OutboxEvent → List OutboxEvent × List OutboxEvent
claim_rows is_row_locked params rows =
    let ids = outbox_ids (candidates is_row_locked params rows) in
    let updated = update_where (λ row. contains row.outbox_id ids) (lock_row params) rows in
    (updated, select (λ row. contains row.outbox_id ids) updated)

unfoldable pub claim_pending_events :
    (ℕ → Bool)
    → ClaimPendingEventsParams
    → List OutboxEvent
    → List OutboxEvent × List ClaimedOutboxEvent
claim_pending_events is_row_locked params rows =
    let claimed = claim_rows is_row_locked params rows in
    (claimed.0, map to_claimed_event (claimed.1))

pub record MarkPublishedParams : Type 0 where
  pub outbox_id : ℕ
  pub worker_id : ℕ
  pub published_at : ℕ
  pub published_target : String

pub record MarkPublishFailedParams : Type 0 where
  pub outbox_id : ℕ
  pub worker_id : ℕ
  pub retry_count : ℕ
  pub status : OutboxStatus
  pub last_error : String
  pub next_retry_at : Option ℕ

abbrev pub is_locked_by : Option ℕ → ℕ → Bool
is_locked_by none worker = false
is_locked_by (some w) worker = w == worker

abbrev pub published_row : MarkPublishedParams → OutboxEvent → OutboxEvent
published_row params row = record row {
  status = published;
  published_at = some params.published_at;
  published_target = some params.published_target;
  locked_at = none;
  locked_by = none;
  next_retry_at = none;
  last_error = none;
}

abbrev pub failed_row : MarkPublishFailedParams → OutboxEvent → OutboxEvent
failed_row params row = record row {
  status = params.status;
  retry_count = params.retry_count;
  last_error = some params.last_error;
  next_retry_at = params.next_retry_at;
  locked_at = none;
  locked_by = none;
}

unfoldable pub mark_published : MarkPublishedParams → List OutboxEvent → List OutboxEvent
mark_published params =
    update_where
      (λ row. row.outbox_id == params.outbox_id && is_locked_by row.locked_by params.worker_id)
      (published_row params)

unfoldable pub mark_publish_failed : MarkPublishFailedParams → List OutboxEvent → List OutboxEvent
mark_publish_failed params =
    update_where
      (λ row. row.outbox_id == params.outbox_id && is_locked_by row.locked_by params.worker_id)
      (failed_row params)
