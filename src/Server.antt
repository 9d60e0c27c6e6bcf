-- ===== src/Server.antt =====
-- crates/server: the relay.
pub mod Db
pub mod Admission
pub mod Live
pub mod Accounts
pub mod Context
pub mod Session
mod Tests
pub mod Errors
pub mod Connection
mod SessionTests
