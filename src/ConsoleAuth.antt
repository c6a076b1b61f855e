-- ===== src/ConsoleAuth.antt =====
-- src/console/auth.js: the throttle of the console's login.
pub mod Throttle
pub mod Times
pub mod Lockout
mod Examples
