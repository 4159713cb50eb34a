-- ===== src/Outbox.antt =====
-- The transactional outbox: apps/wms-service/src/outbox/outbox-event.service.ts, of which each
-- service has a copy with its own name. A service
-- inserts one row with each change of its own tables, in the same transaction.
use multi_tenant.Base.{ℕ, String, Option, none, some, get_or}
use multi_tenant.Uuid.{UuidText}
use multi_tenant.Json.{Json, null, num, str, uuid, uuid_text, instant, obj, end, field}

pub data OutboxStatus : Type 0 where
  pending published failed : OutboxStatus

pub record OutboxContext : Type 0 where
  pub tenant_id : UuidText
  pub user_id : Option ℕ
  pub request_id : Option String

pub record OutboxEventCommand : Type 0 where
  pub context : OutboxContext
  pub event_type : String
  pub aggregate_type : String
  pub aggregate_id : ℕ
  pub payload_data : Json
  pub schema_version : Option ℕ

-- A row of `outbox_events`. The columns below `payload` have the defaults of the table in a row
-- that `record` inserts; the relay service writes them.
pub record OutboxEvent : Type 0 where
  pub outbox_id : ℕ
  pub event_id : ℕ
  pub event_type : String
  pub schema_version : ℕ
  pub tenant_id : ℕ
  pub request_id : String
  pub source : String
  pub aggregate_type : String
  pub aggregate_id : ℕ
  pub payload : Json
  pub status : OutboxStatus
  pub retry_count : ℕ
  pub next_retry_at : Option ℕ
  pub locked_at : Option ℕ
  pub locked_by : Option ℕ
  pub published_at : Option ℕ
  pub published_target : Option String
  pub last_error : Option String
  pub created_at : ℕ

abbrev pub actor : Option ℕ → Json
actor none = obj (field "type" (str "system") (field "userId" null end))
actor (some u) = obj (field "type" (str "user") (field "userId" (uuid u) end))

-- `source` is the service's name, a constant of its `OutboxEventService`.
abbrev pub envelope : String → ℕ → ℕ → OutboxEventCommand → Json
envelope source event_id now c = obj (
    field "eventId" (uuid event_id) (
      field "eventType" (str c.event_type) (
        field "schemaVersion" (num (get_or c.schema_version 1)) (
          field "tenantId" (uuid_text c.context.tenant_id) (
            field "requestId" (str (get_or c.context.request_id "unknown")) (
              field "occurredAt" (instant now) (
                field "source" (str source) (
                  field "aggregateType" (str c.aggregate_type) (
                    field "aggregateId" (uuid c.aggregate_id) (
                      field "actor" (actor c.context.user_id)
                        (field "data" c.payload_data end)))))))))))

-- The row that `OutboxEventService.record` inserts. The payload keeps the tenant's text as it came,
-- the column its value.
unfoldable pub outbox_row : String → ℕ → ℕ → ℕ → OutboxEventCommand → OutboxEvent
outbox_row source outbox_id event_id now c = record {
  outbox_id = outbox_id;
  event_id = event_id;
  event_type = c.event_type;
  schema_version = get_or c.schema_version 1;
  tenant_id = c.context.tenant_id.value;
  request_id = get_or c.context.request_id "unknown";
  source = source;
  aggregate_type = c.aggregate_type;
  aggregate_id = c.aggregate_id;
  payload = envelope source event_id now c;
  status = pending;
  retry_count = 0;
  next_retry_at = none;
  locked_at = none;
  locked_by = none;
  published_at = none;
  published_target = none;
  last_error = none;
  created_at = now;
}
