-- ===== src/Client.antt =====
-- The client, crates/client: its local store and its text editor.
pub mod Local
pub mod Editor
mod Samples
mod LocalTests
mod EditorTests
