-- ===== src/Tracing.antt =====
-- tracing/utils/types.go: the tracer of jumps (Jumps), the similarity of two execution paths
-- (Similarity) and the protection rules that are made from a modification (Rules).
pub mod Jumps
pub mod Similarity
pub mod Rules
mod Tests
