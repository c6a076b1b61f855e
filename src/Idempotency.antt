-- ===== src/Idempotency.antt =====
-- src/idempotency.js: Idempotency-Key support for the ingestion endpoints. `Rows` holds the table
-- rows of one scope and key and their summary, `Begin` the decisions of one request, `System` the
-- interleaved steps of several requests.
pub mod Rows
pub mod Begin
pub mod System
pub mod Summaries
pub mod Leader
pub mod Exclusion
pub mod EarlyClose
mod Examples
