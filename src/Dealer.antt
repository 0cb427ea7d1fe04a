-- ===== src/Dealer.antt =====
-- The dealer contract (contracts/snip721-dealer/src).
pub mod Msg
pub mod State
pub mod Instantiate
pub mod Purchase
pub mod Child
pub mod Execute
pub mod Migrate
pub mod Deserialize
pub mod Schema
pub mod Lifecycle
