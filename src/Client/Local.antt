-- ===== src/Client/Local.antt =====
-- crates/client/src/local.rs: the database of a device.
pub mod Kinds
pub mod Rows
pub mod Keys
pub mod Messages
pub mod Notifications
pub mod Sync
pub mod Contacts
pub mod Sealed
pub mod Deletion
pub mod Commit
pub mod Operations
pub mod Profile
pub mod Reach
