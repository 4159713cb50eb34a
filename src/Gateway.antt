-- ===== src/Gateway.antt =====
-- Access tokens: the identity service signs them, the gateway checks them.
pub mod Claims
pub mod Signer
pub mod Verifier
pub mod Guard
pub mod Tests
