-- ===== src/Crypto.antt =====
-- crates/crypto: what the devices encrypt and what they show to their users.
pub mod Frame
pub mod Blob
pub mod WrappedKey
pub mod Vault
pub mod RoundTrip
pub mod Pairing
mod Tests
