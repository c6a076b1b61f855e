-- ===== src/TableKeys.antt =====
-- src/table-keys.js: declared key columns. `KeyList` holds the check of a requested list, `Accepted`
-- what it lets pass.
pub mod KeyList
pub mod Accepted
mod Examples
