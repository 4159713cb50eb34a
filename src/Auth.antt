-- ===== src/Auth.antt =====
-- The identity service, apps/auth-iam-service/src: sessions, users, roles and permission checks.
pub mod Types
pub mod Effects
pub mod Input
pub mod Store
pub mod Sessions
pub mod Users
pub mod Access
pub mod Rbac
pub mod Service
pub mod Tests
