-- ===== src/Client/Local/Rows.antt =====
-- The tables of crates/client/migrations as lists of rows. The columns that the program never
-- reads (`updated_at_ms` of the profile, the contacts, the drafts and the preferences,
-- `processed_at_ms`, and the vault's creation time) are left out.
use tui_chat.Base.{ℕ, Bool, List, Option}
use tui_chat.Base.Text.{Bytes, Text}
use tui_chat.Base.Int.{ℤ}
use tui_chat.Protocol.Frames.{UserBundle}
use tui_chat.Client.Local.Kinds.{MessageStatus, NotificationKind, NotificationState}

pub record Contact : Type 0 where
  pub bundle : UserBundle
  pub verified : Bool
  pub identity_changed : Bool
  pub unread_count : ℕ
  pub last_activity_ms : ℤ

pub record ConversationTombstone : Type 0 where
  pub peer_account_id : Text
  pub peer_username : Text
  pub conversation_id : Text
  pub sync_event_id : Text
  pub deleted_at_ms : ℤ

pub record ChatMessage : Type 0 where
  pub id : Text
  pub conversation_id : Text
  pub peer_account_id : Text
  pub sender_account_id : Text
  pub body : Text
  pub sent_at_ms : ℤ
  pub status : MessageStatus
  pub inbound : Bool

pub record TransferContact : Type 0 where
  pub bundle : Bytes
  pub verified : Bool

-- `payload` is the JSON text of `NotificationData`, which serde_json writes and reads.
pub record Notification : Type 0 where
  pub id : Text
  pub kind : NotificationKind
  pub request_id : Text
  pub actor_account_id : Text
  pub actor_username : Text
  pub actor_device_id : Text
  pub state : NotificationState
  pub read : Bool
  pub created_at_ms : ℤ
  pub updated_at_ms : ℤ
  pub payload : Bytes

pub record ContactRow : Type 0 where
  pub account_id : Text
  pub username : Text
  pub bundle : Bytes
  pub verified : Bool
  pub identity_changed : Bool

pub record MessageRow : Type 0 where
  pub logical_message_id : Text
  pub conversation_id : Text
  pub peer_account_id : Text
  pub sender_account_id : Text
  pub encrypted_body : Bytes
  pub sent_at_ms : ℤ
  pub status : Text
  pub inbound : Bool
  pub encryption_version : ℕ

pub record OutboxRow : Type 0 where
  pub logical_message_id : Text
  pub encoded_frame : Bytes
  pub created_at_ms : ℕ

pub record DraftRow : Type 0 where
  pub conversation_id : Text
  pub encrypted_body : Bytes

pub record SummaryRow : Type 0 where
  pub conversation_id : Text
  pub peer_account_id : Text
  pub last_activity_ms : ℤ
  pub unread_count : ℕ

pub record NotificationRow : Type 0 where
  pub id : Text
  pub kind : Text
  pub request_id : Text
  pub actor_account_id : Text
  pub actor_username : Text
  pub actor_device_id : Text
  pub encrypted_payload : Bytes
  pub state : Text
  pub is_read : Bool
  pub created_at_ms : ℤ
  pub updated_at_ms : ℤ

pub record TombstoneRow : Type 0 where
  pub tombstone : ConversationTombstone
  pub pending_sync : Bool

pub record LocalDb : Type 0 where
  pub profile : Option Bytes
  pub contacts : List ContactRow
  pub messages : List MessageRow
  pub outbox : List OutboxRow
  pub envelope_cursor : ℤ
  pub status_cursor : ℤ
  pub drafts : List DraftRow
  pub conversation_summaries : List SummaryRow
  pub processed_pairing_events : List ℤ
  pub notifications : List NotificationRow
  pub conversation_tombstones : List TombstoneRow
  pub ui_preferences : List (Text × Text)
