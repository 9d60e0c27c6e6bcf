-- ===== src/Server/Db/Rows.antt =====
-- The tables of crates/server/migrations as lists of rows in the order of their keys. An
-- AUTOINCREMENT key takes the next number of its sequence, which never falls. The columns that the
-- program never reads (`identity_generation`, `updated_at_ms`, `consumed_at_ms`, and the creation
-- times of accounts and pairing events) are left out.
use tui_chat.Base.{
  ℕ, ◌+◌, ◌-◌, Bool, List, [], ◌∷◌, Option, length, if◌then◌else◌, ◌==◌, list_eq, nat_eq, sum_of,
}
use tui_chat.Base.Text.{Bytes, Text}
use tui_chat.Base.Int.{ℤ}
use tui_chat.Protocol.Messages.{DeviceBundle, OneTimeKey, EncryptedEnvelope, DeliveryUpdate}

pub record Account : Type 0 where
  pub id : Text
  pub username : Text
  pub password_phc : Text
  pub state : Text
  pub require_password_change : Bool
  pub master_public_key : Option Bytes
  pub roster_revision : ℕ

-- What `Db::device` returns.
pub record Device : Type 0 where
  pub auth_signing_key : Bytes
  pub pending : Bool
  pub revoked : Bool

pub record DeviceRow : Type 0 where
  pub account_id : Text
  pub bundle : DeviceBundle
  pub sas_public_key : Bytes
  pub pending : Bool
  pub created_at_ms : ℕ
  pub last_authenticated_at_ms : Option ℕ

pub record PrekeyRow : Type 0 where
  pub device_id : Text
  pub key : OneTimeKey
  pub created_at_ms : ℕ

pub record LogicalRow : Type 0 where
  pub logical_message_id : Text
  pub sender_account_id : Text
  pub sender_device_id : Text
  pub peer_account_id : Text
  pub conversation_id : Text
  pub client_sent_at_ms : ℤ
  pub accepted_at_ms : ℕ
  pub delivered_at_ms : Option ℕ

pub record EnvelopeRow : Type 0 where
  pub cursor : ℕ
  pub sender_account_id : Text
  pub sender_device_id : Text
  pub envelope : EncryptedEnvelope
  pub accepted_at_ms : ℕ
  pub delivered_at_ms : Option ℕ

pub record UpdateRow : Type 0 where
  pub cursor : ℕ
  pub account_id : Text
  pub update : DeliveryUpdate

pub record PairingRow : Type 0 where
  pub id : ℕ
  pub pairing_id : Text
  pub sender_device_id : Text
  pub target_device_id : Text
  pub event_type : Text
  pub payload : Bytes
  pub expires_at_ms : ℕ

pub record UsageRow : Type 0 where
  pub account_id : Text
  pub ciphertext_bytes : ℕ

pub record AuditRow : Type 0 where
  pub occurred_at_ms : ℕ
  pub category : Text
  pub actor : Text
  pub action : Text
  pub target : Text
  pub result : Text
  pub source_ip : Option Text
  pub details : Text

pub record Db : Type 0 where
  pub accounts : List Account
  pub devices : List DeviceRow
  pub prekeys : List PrekeyRow
  pub logical_messages : List LogicalRow
  pub envelopes : List EnvelopeRow
  pub envelope_seq : ℕ
  pub delivery_updates : List UpdateRow
  pub update_seq : ℕ
  pub pairing_events : List PairingRow
  pub pairing_seq : ℕ
  pub account_storage_usage : List UsageRow
  pub audit_events : List AuditRow

pub record StorageLimits : Type 0 where
  pub max_account_ciphertext_bytes : ℕ
  pub max_total_ciphertext_bytes : ℕ
  pub min_free_disk_bytes : ℕ

pub record CleanupStats : Type 0 where
  pub envelopes : ℕ
  pub ciphertext_bytes : ℕ
  pub logical_messages : ℕ
  pub delivery_updates : ℕ

-- `length(ciphertext)`
abbrev pub ciphertext_length : EnvelopeRow → ℕ
ciphertext_length e = length e.envelope.ciphertext

-- The trigger `envelopes_storage_usage_insert`.
unfoldable pub add_usage : Text → ℕ → List UsageRow → List UsageRow
add_usage account n [] = record { account_id = account; ciphertext_bytes = n } ∷ []
add_usage account n (row ∷ rows) =
    if row.account_id == account
    then record row { ciphertext_bytes = row.ciphertext_bytes + n } ∷ rows
    else row ∷ add_usage account n rows

-- The trigger `envelopes_storage_usage_delete`; `-` stops at 0 as its `MAX(0, …)` does.
unfoldable pub release_usage : Text → ℕ → List UsageRow → List UsageRow
release_usage account n [] = []
release_usage account n (row ∷ rows) =
    if row.account_id == account
    then record row { ciphertext_bytes = row.ciphertext_bytes - n } ∷ rows
    else row ∷ release_usage account n rows

-- The delete trigger for each row of a `DELETE FROM envelopes`.
unfoldable pub release_all : List EnvelopeRow → List UsageRow → List UsageRow
unfolding release_usage
release_all [] usage = usage
release_all (e ∷ es) usage =
    release_all es (release_usage e.sender_account_id (ciphertext_length e) usage)

-- `SELECT ciphertext_bytes FROM account_storage_usage WHERE account_id = ?`, 0 without a row.
unfoldable pub usage_of : Text → List UsageRow → ℕ
usage_of account [] = 0
usage_of account (row ∷ rows) =
    if row.account_id == account then row.ciphertext_bytes else usage_of account rows

-- `SELECT COALESCE(SUM(ciphertext_bytes), 0) FROM account_storage_usage`
unfoldable pub total_usage : List UsageRow → ℕ
total_usage = sum_of (λ row. row.ciphertext_bytes)
