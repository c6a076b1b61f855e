-- ===== src/Cron.antt =====
-- src/console/cron.js: the parsing of schedules.
pub mod Parse
pub mod Values
pub mod Bounds
mod Examples
