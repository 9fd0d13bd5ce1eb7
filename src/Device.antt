-- ===== src/Device.antt =====
-- src/system and include/system.
pub mod StringPool
pub mod Logger
pub mod Upgrade
pub mod EspOta
