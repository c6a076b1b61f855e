-- ===== src/StorageConfig.antt =====
-- src/storage-config.js: the storage settings saved from the console, kept in a file that is read
-- before the lake is opened. `File` holds the state and the operations, `Effect` the environment of
-- saved settings, `Recovery` what a failed or a confirmed change leaves.
pub mod File
pub mod Effect
pub mod Recovery
mod Examples
