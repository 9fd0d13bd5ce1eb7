-- ===== src/App.antt =====
-- src/app and include/app.
pub mod Cron
pub mod Mqtt
pub mod CommandManager
pub mod Command
