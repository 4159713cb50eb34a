-- ===== src/Relay/Envelope.antt =====
-- The check of a claimed row before it is published:
-- apps/outbox-relay-service/src/relay/event-envelope.validator.ts. `is_date` tells of a JSON value
-- whether it is a string that `Date.parse` reads.
pub mod Accepts
use multi_tenant.Base.{
  ℕ, String, Bool, true, false, Option, none, some, ◌==◌, str_eq, is_some, if◌then◌else◌,
}
use multi_tenant.Uuid.{is_column}
use multi_tenant.Json.{Json, Fields, null, num, str, uuid, uuid_text, obj, get_field}
use multi_tenant.Relay.Source.{ClaimedOutboxEvent}

-- `actual === expected`, where the expected value is a text, an identifier or a number
abbrev pub is_uuid : Option Json → ℕ → Bool
is_uuid (some (uuid i)) expected = i == expected
is_uuid (some (uuid_text t)) expected = is_column t expected
is_uuid _ expected = false

abbrev pub is_str : Option Json → String → Bool
is_str (some (str s)) expected = str_eq s expected
is_str _ expected = false

abbrev pub is_num : Option Json → ℕ → Bool
is_num (some (num n)) expected = n == expected
is_num _ expected = false

-- The message of the error that is thrown.
pub data Checked : Type 0 where
  valid : Checked
  invalid : String → Checked

-- `assertEqual`, and what follows it.
abbrev pub assert_equal : Bool → String → Checked → Checked
assert_equal same field next = if same then next else invalid field

module _ (is_date : Option Json → Bool) where
  unfoldable pub check_fields : ClaimedOutboxEvent → Fields → Checked
  check_fields event payload =
      assert_equal (is_uuid (get_field "eventId" payload) event.event_id) "eventId" (
        assert_equal (is_str (get_field "eventType" payload) event.event_type) "eventType" (
          assert_equal (is_num (get_field "schemaVersion" payload) event.schema_version)
            "schemaVersion"
            (assert_equal (is_uuid (get_field "tenantId" payload) event.tenant_id) "tenantId" (
              assert_equal (is_str (get_field "requestId" payload) event.request_id) "requestId" (
                assert_equal (is_str (get_field "source" payload) event.source) "source" (
                  assert_equal (is_str (get_field "aggregateType" payload) event.aggregate_type)
                    "aggregateType"
                    (assert_equal (is_uuid (get_field "aggregateId" payload) event.aggregate_id)
                      "aggregateId"
                      (assert_equal (is_date (get_field "occurredAt" payload)) "occurredAt"
                        (assert_equal (is_some (get_field "data" payload)) "data" valid)))))))))

  unfoldable pub validate_claimed_event_envelope : ClaimedOutboxEvent → Json → Checked
  validate_claimed_event_envelope event (obj payload) = check_fields event payload
  validate_claimed_event_envelope event _ = invalid "payload"
