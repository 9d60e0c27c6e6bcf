-- ===== src/Server/Db.antt =====
-- crates/server/src/db.rs over the tables of crates/server/migrations.
pub mod Rows
pub mod Devices
pub mod Prekeys
pub mod Usage
pub mod Consistent
pub mod Batch
pub mod Store
pub mod Delivery
pub mod Cleanup
pub mod Pairing
pub mod Unrelated
pub mod Samples
mod Tests
mod RosterTests
