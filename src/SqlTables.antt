-- ===== src/SqlTables.antt =====
-- src/sql-tables.js: the tables that a parsed statement reads, and the policy on them. `Ast` holds
-- the JSON of the statement, `Walk` what is made of one object, `Extract` the walk and `Analyze`
-- the policy. `Reads` says what a statement reads; the proofs stand in `Names`, `Allowed`,
-- `Complete`, `Ctes`, `Covered` and `Calls`.
pub mod Ast
pub mod Walk
pub mod Extract
pub mod Analyze
pub mod Names
pub mod Reads
pub mod Complete
pub mod Ctes
pub mod Covered
pub mod Calls
pub mod Allowed
mod Examples
