-- ===== src/Migratable.antt =====
-- The migratable token contract (contracts/snip721-migratable/src).
pub mod Msg
pub mod Contract
pub mod Migrate
pub mod Deserialize
pub mod Schema
pub mod State
