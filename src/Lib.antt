-- ===== src/Lib.antt =====
-- The ichibi-lake gateway (src/): a Node.js service in front of DuckDB and DuckLake tables. This
-- library models the parts of it that decide who may do what, and what a retried write does, and
-- proves them correct.
--
-- The parts, how they interact, and the files that model them:
--
-- Every request passes the authentication middleware of src/index.js, which asks src/rbac.js
-- whether the key is valid. The endpoints then ask src/acl.js whether the key may read or write a
-- table; acl.js asks RBAC first and the table's own lists when RBAC does not grant. SQL text of a
-- user goes through src/sql-tables.js, which lists the tables that the parsed statement reads, so
-- that each is authorised. Writes that carry an Idempotency-Key go through src/idempotency.js.
--
-- - Base: library names passed on, Boolean tests and list functions (Base/Tests, Base/Lists), the
--   JavaScript Map (Base/Dict), actions on a state that may throw, where what was written before a
--   throw stays written (Base/Exec), text functions (Base/Text).
-- - Rbac (src/rbac.js): Rbac/Store holds the three tables, the three caches, process.env, the clock
--   and the SQL statements; Rbac/Lookups findUser, getUserRoles and getTablePermission; Rbac/Access
--   checkAccess, isValidApiKey, isSuperuserKey and the middleware of src/index.js; Rbac/Admin
--   createUser, updateUser, setUserRoles and setTablePermission; Rbac/Bootstrap bootstrapRbac,
--   legacyBootstrap and syncLegacyApiKeys. Names are those of the source in snake case. The proofs:
--   Rbac/Coherence says when the caches agree with the tables, Rbac/Reads that the reads keep it so,
--   Rbac/Policy states the policy independently of the code, and one file for each operation
--   (Updates, RoleUpdates, Permissions, Creation, Revocation, Promotion, LegacyKeys, Sync,
--   KeyRevocation, Superusers).
-- - Acl (src/acl.js): Acl/Lists holds _table_acls, its cache, ensureTableAcl, updateTableAcl,
--   checkReadAccess and checkWriteAccess, over the state of Rbac; the proofs stand in Acl/Reads,
--   Acl/Writes and Acl/Decisions.
-- - SqlTables (src/sql-tables.js): SqlTables/Ast holds the JSON of a parsed statement,
--   SqlTables/Walk and SqlTables/Extract the walk of extractTableReferences, SqlTables/Analyze the
--   policy of analyzeUserSql. SqlTables/Reads says independently what a statement reads, by rules
--   on where a table reference stands and which CTE names are in scope there, and
--   SqlTables/Calls which table functions it calls; Complete, Ctes, Covered and Calls relate them
--   to the walk.
-- - Conflict (src/conflict.js): isTransactionConflict and retryOnConflict, the retry of a write that
--   loses a commit race with another instance; what the others do in the waits is an argument.
-- - TableKeys (src/table-keys.js): normaliseKeyList in TableKeys/KeyList, what it accepts in
--   TableKeys/Accepted.
-- - Idempotency (src/idempotency.js and the idempotency rows of src/console/store.js):
--   Idempotency/Rows holds the rows of one key and tokensOf, Idempotency/Begin the decisions of
--   beginIdempotentRequest, Idempotency/System any number of requests on any number of gateway
--   instances, as interleaved steps with one statement of SQL at most in each.
-- - StorageConfig (src/storage-config.js): StorageConfig/File holds the saved file and the functions
--   that read, change and confirm it, StorageConfig/Effect the settings that a start works with,
--   StorageConfig/Recovery what a restart after a failed change does.
-- - AdminApi (src/rbac-api.js and the list functions of src/rbac.js): AdminApi/Routes holds the
--   handlers over the state of Rbac, AdminApi/Lists the queries, AdminApi/Gate the superuser check
--   before every handler.
-- - Graphs (src/graphs.js): Graphs/Build holds buildCreatePropertyGraphSql, Graphs/Plain says which
--   characters a built statement can hold.
-- - Retention (src/console/retention.js): Retention/Rules validates a rule, with the conditions of
--   Retention/Conditions; Retention/Tables says which tables it selects, Retention/Predicates which
--   SQL it becomes, by the types of Retention/Columns and the quoting of Retention/Quoting, and
--   Retention/Criteria, apart from that code, what the WHERE clause of a rule is;
--   Retention/Evaluation and Retention/Jobs evaluate a table and run the job. The proofs stand in
--   Retention/Literals (quoting), Accepted (validation), Clauses (the WHERE clause), Totals, Spared
--   and JobSafety (the job).
-- - Maintenance (src/console/maintenance.js and the maintenance row of src/console/store.js):
--   Maintenance/Settings validates the settings, Maintenance/Row holds the row and the statements on
--   it, Maintenance/System any number of gateways that claim the run, as interleaved steps; the
--   proofs stand in Maintenance/Fits (what the row says of a request), Maintenance/Free (what a
--   claim that has looked at the row knows of the runs), Maintenance/Exclusion and
--   Maintenance/Overlap (what becomes of late commits).
-- - Kafka (src/kafka-consumer.js): Kafka/Modes parses KAFKA_INGEST_MODES, Kafka/Consumer holds the
--   batches, timers and flushes as events, Kafka/Buffered says what becomes of the records.
-- - ConsoleAuth (src/console/auth.js): ConsoleAuth/Throttle holds LoginThrottle and the checks of names
--   and passwords; ConsoleAuth/Times and ConsoleAuth/Lockout relate the throttle to the history of the
--   attempts.
-- - Cron (src/console/cron.js): Cron/Parse holds parseCron, Cron/Values and Cron/Bounds the values
--   that it can yield.
--
-- Bounds and termination: every function is structural recursion (the walk over a statement is a
-- mutual block over the JSON, the retry loop counts the attempts left), but for the values of a
-- schedule's range: hi + 1 rounds, which are enough since a step is at least 1 (Cron/Values),
-- and the digits of a number n: n rounds. Times and row ids are natural numbers.
--
-- Parameters, for code that is not in the repository or that the model leaves open: the decoding
-- of RBAC_USERS and RBAC_TABLE_PERMISSIONS (JSON.parse), String.prototype.toLowerCase, and the
-- claim tokens and request hashes of the requests (randomUUID, SHA-256). For the pruning jobs:
-- which rows a WHERE clause selects, path.resolve, the order of localeCompare (validateCron is
-- an argument of the rules, and reclaimTableStorage, which is not modelled, one of the jobs).
-- For the schedules: toUpperCase, and Number of a step.
--
-- Simplifications: a SQL statement is a function on the rows of its table, which fails only
-- while the table does not exist; the clock does not move within one call of Rbac or Acl; the
-- JSON columns of _table_acls are held decoded; the rows of one scope and key stand for the
-- idempotency table, and a write to it does not fail. While a
-- pruning job runs only the job changes the lake, but each statement on a table has its own
-- CURRENT_TIMESTAMP, so that rows may age between the count and the DELETE. The claim of a
-- maintenance run is on one row: the WHERE clause of its UPDATE and the commit are two steps, with
-- others between them, while the row's other statements are atomic.
--
-- Not modelled: the HTTP routes and GraphQL (src/index.js), the DuckDB pools (src/db.js), export,
-- import, object storage and archives (src/export.js, src/import.js, src/storage.js, src/zip.js),
-- the Kafka producer, metrics, health, and the rest of the admin console (src/console).
-- Of the pruning rules the preview and the scheduler are left out, of the maintenance what a run does
-- to the lake.
pub mod Base
pub mod Rbac
pub mod Idempotency
pub mod Acl
pub mod SqlTables
pub mod Conflict
pub mod TableKeys
pub mod StorageConfig
pub mod AdminApi
pub mod Graphs
pub mod Retention
pub mod Maintenance
pub mod Kafka
pub mod ConsoleAuth
pub mod Cron
