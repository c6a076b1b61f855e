-- ===== src/Graphs.antt =====
-- src/graphs.js: the CREATE PROPERTY GRAPH statement of a JSON definition. `Build` holds the
-- checks and the text, `Plain` what the text is made of.
pub mod Build
pub mod Plain
mod Examples
