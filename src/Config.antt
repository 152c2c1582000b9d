-- ===== src/Config.antt =====
-- tracing/config/config_validation.go: the validation of a mutation configuration (Validation), and the
-- regular expressions that it uses (Patterns). The records are in Result.
pub mod Patterns
pub mod Result
pub mod Defaults
pub mod Validation
mod Tests
