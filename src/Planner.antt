-- ===== src/Planner.antt =====
-- tracing/mutation/smart_mutation_strategy.go: what the strategy manager learns from results (Learning)
-- and the plan of mutations that it makes (Plan).
pub mod Learning
pub mod Plan
mod Tests
