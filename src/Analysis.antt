-- ===== src/Analysis.antt =====
-- tracing/analysis/storage_analyzer.go: the analysis of a contract's storage (Slots) and the mutation of
-- it by the slots' types (Mutator).
pub mod Slots
pub mod Mutator
mod Tests
