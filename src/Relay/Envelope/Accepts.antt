-- ===== src/Relay/Envelope/Accepts.antt =====
-- The relay accepts what the services write.
use multi_tenant.Base.{
  ℕ, String, Bool, true, ◌≡◌, ◌↔◌, ◌&&◌, refl, Option, some, false, if◌then◌else◌, str_eq, ==_refl,
  eq_iff,
}
use multi_tenant.Json.{Json, instant}
use multi_tenant.Outbox.{OutboxEventCommand, outbox_row}
use multi_tenant.Relay.Source.{to_claimed_event}
use multi_tenant.Relay.Envelope.{valid, invalid, check_fields, validate_claimed_event_envelope}

str_eq_refl : (s : String) → str_eq s s ≡ true
str_eq_refl s = (eq_iff s s).1 refl

-- If `Date.parse` reads the texts that `toISOString` makes, then a row that a service's
-- `OutboxEventService.record` inserts passes the relay's check exactly when the tenant's text came in
-- lower case, whatever the event is.
pub outbox_row-valid :
    (is_date : Option Json → Bool)
    → ((at : ℕ) → is_date (some (instant at)) ≡ true)
    → (source : String) (outbox_id event_id now : ℕ) (command : OutboxEventCommand)
    → (let row = outbox_row source outbox_id event_id now command in
        (validate_claimed_event_envelope is_date (to_claimed_event row) row.payload ≡ valid)
        ↔ (command.context.tenant_id.is_lower ≡ true))
unfolding outbox_row validate_claimed_event_envelope check_fields
outbox_row-valid is_date h source outbox_id event_id now command =
    simp (==_refl, str_eq_refl, h) (by_spelling command.context.tenant_id.is_lower)
  where
    by_spelling :
        (b : Bool) → ((if b && true then valid else invalid "tenantId") ≡ valid) ↔ (b ≡ true)
    by_spelling true = (λ _. refl, λ _. refl)
    by_spelling false = (λ e. cc e, λ e. cc e)
