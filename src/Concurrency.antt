-- ===== src/Concurrency.antt =====
-- Package tracing/utils, concurrency.go: the cache with expiry and the limit on concurrent operations.
pub mod Cache
pub mod Manager
pub mod Pool
mod Tests
