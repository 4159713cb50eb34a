-- ===== src/Relay.antt =====
-- The outbox relay, apps/outbox-relay-service/src: it claims the pending rows of a service's
-- outbox, publishes their envelopes, and marks each row as published or for another try.
pub mod Source
pub mod Envelope
pub mod Worker
pub mod Tests
