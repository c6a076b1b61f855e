-- ===== src/Retention.antt =====
-- src/console/retention.js: the pruning rules, and the jobs that delete by them.
pub mod Quoting
pub mod Literals
pub mod Columns
pub mod Conditions
pub mod Tables
pub mod Rules
pub mod Accepted
pub mod Predicates
pub mod Criteria
pub mod Clauses
pub mod Evaluation
pub mod Jobs
pub mod Totals
pub mod Spared
pub mod JobSafety
mod Examples
