-- ===== src/Rbac.antt =====
-- src/rbac.js: users, roles and table permissions in three DuckLake tables, with in-memory
-- caches. `Store` holds the state and the SQL statements, `Lookups` the cached reads, `Access`
-- the decisions, `Admin` the writes of the admin API, `Bootstrap` the startup code. The proofs
-- stand in the children of these and in `Coherence`, `Policy`, `Revocation`.
pub mod Store
pub mod Tables
pub mod Lookups
pub mod Keys
pub mod Access
pub mod Admin
pub mod Bootstrap
pub mod Coherence
pub mod Reads
pub mod Updates
pub mod Revocation
pub mod RoleUpdates
pub mod Permissions
pub mod Creation
pub mod Promotion
pub mod LegacyKeys
pub mod Superusers
pub mod Sync
pub mod KeyRevocation
mod Examples
pub mod Locality
pub mod Policy
