-- ===== src/Db.antt =====
-- crates/db: the rows, the tables, and one child for each repository module.
pub mod Rows
pub mod Schema
pub mod Blocks
pub mod Transactions
pub mod Cells
pub mod Checkpoint
pub mod ReorgLog
pub mod CellQueries
pub mod ApiKeys
pub mod Users
pub mod Sessions
