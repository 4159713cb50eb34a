-- ===== src/Wms.antt =====
-- The warehouse service, apps/wms-service/src/wms.
pub mod Types
pub mod Effects
pub mod Access
pub mod Client
pub mod Inventory
pub mod Calendar
pub mod References
pub mod Events
pub mod Stock
pub mod Outbound
pub mod Packing
pub mod Shipping
pub mod Snapshot
pub mod MasterData
pub mod Service
pub mod Tests
