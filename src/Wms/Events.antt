-- ===== src/Wms/Events.antt =====
-- The outbox rows of the service's own transactions (`this.outboxEventService.record(tx, …)`).
use multi_tenant.Base.{ℕ, String, none, ◌∷◌}
use multi_tenant.Json.{Json}
use multi_tenant.Outbox.{OutboxEventCommand, outbox_row}
use multi_tenant.Wms.Types.{Env, Context}
use multi_tenant.Wms.Effects.{Tx, modify}

-- `OutboxEventService.record`
unfoldable pub record_event : Env → OutboxEventCommand → Tx Unit
record_event env command = modify (λ db. record db {
  outbox = outbox_row "wms-service" env.outbox_id env.event_id env.now command ∷ db.outbox;
})

abbrev pub event : ℕ → Context → String → String → ℕ → Json → OutboxEventCommand
event tenant_id context event_type aggregate_type aggregate_id payload_data = record {
  context = record {
    tenant_id = record { value = tenant_id; is_lower = context.tenant_is_lower };
    user_id = context.user_id;
    request_id = context.request_id;
  };
  event_type = event_type;
  aggregate_type = aggregate_type;
  aggregate_id = aggregate_id;
  payload_data = payload_data;
  schema_version = none;
}
