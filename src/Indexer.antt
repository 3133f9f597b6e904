-- ===== src/Indexer.antt =====
-- crates/indexer: the parser, the reorg handler and the polling loop, with what they guarantee.
pub mod Chain
pub mod Parser
pub mod Reorg
pub mod Poller
mod Tests
