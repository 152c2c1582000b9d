-- ===== src/Database.antt =====
-- database/utils/serializers/: the numbers of 256 bits in the database (U256).
pub mod U256
mod Tests
