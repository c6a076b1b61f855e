-- ===== src/Acl.antt =====
-- src/acl.js: the owner and reader lists of each table, and the access checks of the table
-- endpoints, which ask RBAC first. `Lists` holds the table, its cache and the operations; `Reads`,
-- `Writes` and `Decisions` the proofs.
pub mod Lists
pub mod Reads
pub mod Writes
pub mod Decisions
mod Examples
