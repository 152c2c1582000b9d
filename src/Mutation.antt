-- ===== src/Mutation.antt =====
-- Package tracing/mutation: the mutations of one ABI argument (type_aware_mutator.go) and those by
-- steps (mutation_manager.go, in Steps). A variant is the callers' counter, which starts at 0, so it is
-- a natural number here.
pub mod Pick
pub mod Numbers
pub mod Texts
pub mod Addresses
pub mod Steps
pub mod Dispatch
mod Tests
