-- ===== src/Bridge.antt =====
-- The external-server build (no EBUS_INTERNAL): src/bridge and include/bridge.
pub mod BusState
pub mod Arbitration
pub mod BusType
pub mod Client
pub mod System
mod Tests
