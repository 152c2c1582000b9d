-- ===== src/Sync.antt =====
-- Reading the chain: bounded ranges (common/bigint), the node client's header queries, the header
-- traversal (synchronizer/node) and the batch loop (synchronizer).
pub mod Bigint
pub mod Headers
pub mod Traversal
pub mod NodeClient
pub mod Synchronizer
mod Tests
