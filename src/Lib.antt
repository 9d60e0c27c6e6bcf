-- ===== src/Lib.antt =====
-- tui-chat: an end-to-end encrypted chat in the terminal. Devices connect to a relay server by
-- WebSocket, and the server keeps their accounts, rosters, prekeys and queued ciphertext in
-- SQLite; a device keeps its messages, contacts and outbox in an encrypted SQLite database of
-- its own.
--
-- Base holds the shared helpers. Protocol is crates/protocol: Messages and Frames have the
-- records of proto/chat.proto, Payload the signed byte strings and the conversation id of
-- src/lib.rs. Server is crates/server: Server/Db is src/db.rs over the tables of migrations,
-- Accounts the rules for names and passwords of src/admin.rs, and Admission, Live, Context,
-- Session, Connection and Errors are src/ws.rs. Crypto is crates/crypto: Blob, WrappedKey and
-- Vault are src/vault.rs, over the byte strings of Frame, and Pairing is src/pairing.rs. Client
-- is crates/client: Local is src/local.rs over the tables of its migrations, and Editor is
-- src/editor.rs.
--
-- A database is the record `Db` of Server/Db/Rows: each table is the list of its rows in the
-- order of its key, and an AUTOINCREMENT key has a sequence number, which an insertion uses up even
-- when the row is ignored. A method of `Db` in db.rs is
-- a function of the same name from the old database to the new one and the answer; `Result`
-- carries the errors. Devices has accounts and devices, Prekeys the one-time prekeys, Batch and
-- Store `store_envelopes` with its transaction, Delivery `sync` and `ack`, Cleanup what is
-- deleted, and Pairing the pairing events and the audit log. Consistent is the invariant of the
-- tables; Unrelated has the operations that leave its tables alone. A transaction that fails
-- leaves the caller with the database that it had, so that a rollback needs no code. SQLite
-- serialises the transactions that write.
--
-- Admission has the counters that `admit`, `mark_authenticated` and `release` keep; Ledger
-- interleaves any number of connections as a step relation. Live has the maps of `AppState`; a
-- channel is named by the token of its connection, and what is sent to it is a list.
--
-- Context has the state of one connection, which the request handlers of Session run on: the
-- database, the live connections, the challenge and the session. A `Handler` gives the new state
-- and an error or a value; what it did before an error stays done. Auth, Password, Enroll, Relay
-- and Devices have the arms of `handle_frame`, Handle the choice among them. Keeps shows an
-- invariant of the state for a handler from its steps; Sound uses it for the tables, Gate is
-- about who may send what, Trust and Once about authentication. Connection is the loop around
-- `handle_frame` and Errors what a client is told.
--
-- The record `Host` holds what a request finds around it: the clock, which does not move while
-- one request is handled, the configuration, and the answers of third-party code, which are
-- Ed25519, Argon2, the parser of UUIDs, SHA-256 and the random nonce, and also the free disk
-- space and the answer of the rate limiter, whose buckets count in floating point. What other
-- connections do between two requests of this one is a change of `Db` and `Live` between two
-- calls.
--
-- The record `LocalDb` of Client/Local/Rows has the tables of a device. Kinds has the
-- enumerations and their texts, Keys what is encrypted, Messages the messages with the triggers
-- that keep the summaries, Notifications, Sync and Contacts the other tables, Deletion what the
-- deletion of a conversation removes and remembers, and Commit the transactions that store a
-- message with the ratchet state and the cursor. Reach is the relation of any history of these
-- operations. Sealed is about what is read back, and Profile reads the profile. A nonce and the
-- clock are arguments. What the client calls is a parameter: `Cipher` is XChaCha20-Poly1305 and
-- Argon2id, `Formats` adds postcard and serde_json, `Readers` is their way back for a profile,
-- `Codec` is the prost encoding of a bundle, and `Curve` is X25519 with HKDF. A theorem that
-- needs that decryption undoes encryption has the hypothesis `Unseals`, and one that needs the
-- two sides of a key exchange to agree has `Agrees`.
--
-- An `EditorState` is a text of bytes and a cursor; an index that is no character boundary,
-- which panics in Rust, is an error. Clean has the characters of a text, Graphemes the loops
-- over its graphemes and words, whose segmentation is the parameter `Unicode`; `IsUnicode` says
-- that they are parts that make up the text. Boundary, Loops and Lines show where the text may
-- be cut, and Run has any sequence of edits.
--
-- Strings and byte strings are lists of bytes. A number of the Rust code is a native natural
-- number where it cannot be negative, and an integer where a client can choose the sign; the
-- conversion of a cursor to `i64` wraps as it does there. `Paging.drain` pages with a fuel that
-- is larger than the queue, since each page but the last takes at least one row.
--
-- Not modelled: opening the databases, their file permissions and the migration of older client
-- data, the checks before an upgrade, the maintenance timer, the configuration, the
-- administration of the server, the screens and the message handling of the client, the identity
-- and the Olm machine, and the cryptography that is called.
pub mod Base
pub mod Protocol
pub mod Server
pub mod Crypto
pub mod Client
