-- ===== src/Client/Local/Reach.antt =====
-- Every history of the operations of crates/client/src/local.rs, and what holds after it.
pub mod Effects
pub mod Badges
pub mod Kept
use tui_chat.Base.{
  ℕ, ◌+◌, ◌≡◌, refl, sym, ap, ◌∙◌, subst, inl, inr, Bool, true, false, List, [], ◌∷◌, Option, none,
  some, Result, ok, err, ◌>>=◌, >>=-eq-ok, ok-injective, ◌==◌, ◌!=◌, list_eq, nat_eq, any, arith,
  All, find, Bool-cases, Option-cases, is_some,
}
use tui_chat.Base.Text.{Bytes, Text}
use tui_chat.Base.Int.{ℤ, int_eq}
use tui_chat.Protocol.Frames.{UserBundle}
use tui_chat.Client.Local.Kinds.{MessageStatus, NotificationState}
use tui_chat.Client.Local.Rows.{
  ChatMessage, MessageRow, Notification, NotificationRow, ConversationTombstone, TombstoneRow,
  TransferContact, LocalDb,
}
use tui_chat.Client.Local.Keys.{
  Formats, VaultSession, RuntimeProfile, encode_profile, encode_message, encode_notification,
}
use tui_chat.Client.Local.Messages.{
  save_message, insert_message, message_row, update_status, update_outbound_status_for_peer,
}
use tui_chat.Client.Local.Messages.Counted.{
  IsCounted, insert_message-IsCounted, delete_conversation_state-IsCounted, same-IsCounted,
}
use tui_chat.Client.Local.Notifications.{
  upsert_notification, notification_row, save_notification, update_notification_state,
  mark_notification_read, delete_notification,
}
use tui_chat.Client.Local.Sync.{
  put_outbox, remove_outbox, set_cursors, set_envelope_cursor, mark_pairing_event_processed,
  save_ui_preference, save_draft,
}
use tui_chat.Client.Local.Contacts.{Codec, upsert_contact, import_contacts}
use tui_chat.Client.Local.Deletion.{
  delete_conversation_state, upsert_conversation_tombstone, delete_conversation_everywhere,
  mark_conversation_deletion_synced, verify_contact,
}
use tui_chat.Client.Local.Commit.{
  Nonces, set_profile, save_profile, commit_outgoing, commit_control_outgoing, commit_inbound,
  commit_unverified_inbound, commit_control, commit_conversation_deletion,
}

module _ (conversation : Text → Text) (formats : Formats) (vault : VaultSession)
    (codec : Codec) where
  -- The caller gives each message the conversation of its peer.
  abbrev IsOwn : ChatMessage → Type 0
  IsOwn m = m.conversation_id ≡ conversation m.peer_account_id

  -- The operations that succeed, each with its arguments.
  pub data Step : LocalDb → LocalDb → Type 0 where
    saves_profile :
        (n : Nonces) (p : RuntimeProfile) {db db' : LocalDb}
        → save_profile formats vault n p db ≡ ok db'
        → Step db db'
    sends :
        (n : Nonces) (p : RuntimeProfile) (m : ChatMessage) (frame : Bytes) (now : ℕ)
        {db db' : LocalDb}
        → IsOwn m
        → commit_outgoing formats vault n p m frame now db ≡ ok db'
        → Step db db'
    sends_control :
        (n : Nonces) (p : RuntimeProfile) (id : Text) (frame : Bytes) (now : ℕ) {db db' : LocalDb}
        → commit_control_outgoing formats vault n p id frame now db ≡ ok db'
        → Step db db'
    receives :
        (n : Nonces) (p : RuntimeProfile) (m : ChatMessage) (cursor : ℕ) {db db' : LocalDb}
        → IsOwn m
        → commit_inbound formats vault n p m cursor db ≡ ok db'
        → Step db db'
    quarantines :
        (n : Nonces) (p : RuntimeProfile) (m : ChatMessage) (note : Notification) (cursor : ℕ)
        {db db' : LocalDb}
        → IsOwn m
        → commit_unverified_inbound formats vault n p m note cursor db ≡ ok db'
        → Step db db'
    receives_control :
        (n : Nonces) (p : RuntimeProfile) (cursor : ℕ) {db db' : LocalDb}
        → commit_control formats vault n p cursor db ≡ ok db'
        → Step db db'
    saves :
        (nonce : Bytes) (m : ChatMessage) {db db' : LocalDb}
        → IsOwn m
        → save_message formats vault nonce m db ≡ ok db'
        → Step db db'
    marks :
        (id : Text) (status : MessageStatus) (db : LocalDb) → Step db (update_status id status db)
    hears :
        (id peer : Text) (status : MessageStatus) (db : LocalDb)
        → Step db (update_outbound_status_for_peer id peer status db)
    deletes :
        (t : ConversationTombstone) {db db' : LocalDb}
        → delete_conversation_everywhere t db ≡ ok db'
        → Step db db'
    syncs_deletion :
        (n : Nonces) (p : RuntimeProfile) (t : ConversationTombstone) (cursor : ℕ)
        {db db' : LocalDb}
        → commit_conversation_deletion formats vault n p t cursor db ≡ ok db'
        → Step db db'
    marks_deletion :
        (event : Text) (db : LocalDb) → Step db (mark_conversation_deletion_synced event db)
    verifies : (account : Text) (db : LocalDb) → Step db (verify_contact account db)
    upserts : (bundle : UserBundle) (db : LocalDb) → Step db (upsert_contact codec bundle db).0
    imports :
        (cs : List TransferContact) {db db' : LocalDb}
        → import_contacts codec cs db ≡ ok db'
        → Step db db'
    drafts :
        (nonce : Bytes) (c t : Text) {db db' : LocalDb}
        → save_draft formats vault nonce c t db ≡ ok db'
        → Step db db'
    notifies :
        (nonce : Bytes) (note : Notification) {db db' : LocalDb}
        → save_notification formats vault nonce note db ≡ ok db'
        → Step db db'
    decides :
        (id : Text) (state : NotificationState) (read : Bool) (now : ℤ) (db : LocalDb)
        → Step db (update_notification_state id state read now db)
    reads_notification :
        (id : Text) (now : ℤ) (db : LocalDb) → Step db (mark_notification_read id now db)
    drops_notification : (id : Text) (db : LocalDb) → Step db (delete_notification id db)
    completes : (id : Text) (db : LocalDb) → Step db (remove_outbox id db)
    moves : (envelope status : ℕ) (db : LocalDb) → Step db (set_cursors envelope status db)
    pairs : (id : ℕ) (db : LocalDb) → Step db (mark_pairing_event_processed id db)
    prefers : (key value : Text) (db : LocalDb) → Step db (save_ui_preference key value db)

  pub data Reach (db : LocalDb) : LocalDb → Type 0 where
    here : Reach db db
    next : {a b : LocalDb} → Reach db a → Step a b → Reach db b
