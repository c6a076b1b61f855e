-- ===== src/Maintenance.antt =====
-- src/console/maintenance.js and the maintenance row of src/console/store.js: the claims by which
-- one gateway instance at a time runs the maintenance.
pub mod Settings
pub mod Row
pub mod System
pub mod Fits
pub mod Free
pub mod Exclusion
pub mod Overlap
mod Examples
