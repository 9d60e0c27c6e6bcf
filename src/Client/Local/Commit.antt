-- ===== src/Client/Local/Commit.antt =====
-- The transactions of crates/client/src/local.rs that store a message, the ratchet state in the
-- profile, and the cursor together. An error leaves the caller with the database that it had.
use tui_chat.Base.{ℕ, true, false, some, Result, ok, ◌>>=◌}
use tui_chat.Base.Text.{Bytes, Text}
use tui_chat.Client.Local.Rows.{ChatMessage, Notification, ConversationTombstone, LocalDb}
use tui_chat.Client.Local.Keys.{
  Formats, VaultSession, RuntimeProfile, encode_message, encode_profile, encode_notification,
}
use tui_chat.Client.Local.Messages.{insert_message, message_row}
use tui_chat.Client.Local.Notifications.{notification_row, upsert_notification}
use tui_chat.Client.Local.Sync.{put_outbox, set_envelope_cursor}
use tui_chat.Client.Local.Deletion.{delete_conversation_state, upsert_conversation_tombstone}

-- The nonces of one transaction.
pub record Nonces : Type 0 where
  pub profile : Bytes
  pub body : Bytes
  pub notification : Bytes

-- `INSERT INTO profile … ON CONFLICT(singleton) DO UPDATE`
unfoldable pub set_profile : Bytes → LocalDb → LocalDb
set_profile blob db = record db { profile = some blob }

module _ (formats : Formats) (vault : VaultSession) (nonces : Nonces)
    (profile : RuntimeProfile) where
  unfoldable pub save_profile : LocalDb → Result LocalDb
  save_profile db = do
    blob ← encode_profile formats vault nonces.profile profile
    ok (set_profile blob db)

  unfoldable pub commit_outgoing : ChatMessage → Bytes → ℕ → LocalDb → Result LocalDb
  unfolding set_profile
  commit_outgoing m frame now db = do
    blob ← encode_profile formats vault nonces.profile profile
    body ← encode_message formats vault nonces.body m
    stored ← insert_message (message_row m body) (set_profile blob db)
    ok (put_outbox m.id frame now stored)

  unfoldable pub commit_control_outgoing : Text → Bytes → ℕ → LocalDb → Result LocalDb
  unfolding set_profile
  commit_control_outgoing id frame now db = do
    blob ← encode_profile formats vault nonces.profile profile
    ok (put_outbox id frame now (set_profile blob db))

  unfoldable pub commit_inbound : ChatMessage → ℕ → LocalDb → Result LocalDb
  unfolding set_profile
  commit_inbound m cursor db = do
    blob ← encode_profile formats vault nonces.profile profile
    body ← encode_message formats vault nonces.body m
    stored ← insert_message (message_row m body) (set_profile blob db)
    ok (set_envelope_cursor cursor stored)

  unfoldable pub commit_unverified_inbound :
      ChatMessage → Notification → ℕ → LocalDb → Result LocalDb
  unfolding set_profile
  commit_unverified_inbound m n cursor db = do
    blob ← encode_profile formats vault nonces.profile profile
    body ← encode_message formats vault nonces.body m
    payload ← encode_notification formats vault nonces.notification n
    stored ← insert_message (message_row m body) (set_profile blob db)
    notified ← upsert_notification true (notification_row n payload) stored
    ok (set_envelope_cursor cursor notified)

  unfoldable pub commit_control : ℕ → LocalDb → Result LocalDb
  unfolding set_profile
  commit_control cursor db = do
    blob ← encode_profile formats vault nonces.profile profile
    ok (set_envelope_cursor cursor (set_profile blob db))

  unfoldable pub commit_conversation_deletion : ConversationTombstone → ℕ → LocalDb → Result LocalDb
  unfolding set_profile
  commit_conversation_deletion t cursor db = do
    blob ← encode_profile formats vault nonces.profile profile
    marked ←
        upsert_conversation_tombstone (record { tombstone = t; pending_sync = false })
          (delete_conversation_state t.peer_account_id t.conversation_id db)
    ok (set_envelope_cursor cursor (set_profile blob marked))
