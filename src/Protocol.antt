-- ===== src/Protocol.antt =====
-- crates/protocol: the messages of proto/chat.proto that client and server exchange, and the
-- payloads that are signed.
pub mod Messages
pub mod Payload
mod Tests
pub mod Frames
