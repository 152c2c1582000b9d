-- ===== src/Modifier.antt =====
-- tracing/mutation/modifier.go: the modification of one transaction's call data by a named strategy
-- (Input) and of the storage that it runs on by steps (Slots).
pub mod Outcome
pub mod Input
pub mod Slots
mod Tests
