-- ===== src/Protocol/Messages.antt =====
-- The messages of crates/protocol/proto/chat.proto. Strings and bytes are lists of bytes, unsigned
-- numbers are ℕ, and the `int64` times that a client chooses are ℤ.
use tui_chat.Base.{ℕ, Bool}
use tui_chat.Base.Text.{Bytes, Text}
use tui_chat.Base.Int.{ℤ}

pub record DeviceBundle : Type 0 where
  pub device_id : Text
  pub device_name : Text
  pub auth_signing_key : Bytes
  pub olm_ed25519_key : Bytes
  pub olm_curve25519_key : Bytes
  pub certificate_signature : Bytes
  pub revoked : Bool

pub record OneTimeKey : Type 0 where
  pub key_id : Text
  pub curve25519_key : Bytes
  pub signature : Bytes

pub record EncryptedEnvelope : Type 0 where
  pub envelope_id : Text
  pub logical_message_id : Text
  pub conversation_id : Text
  pub recipient_account_id : Text
  pub recipient_device_id : Text
  pub ciphertext : Bytes
  pub olm_message_type : ℕ
  pub client_sent_at_ms : ℤ

pub record StoredEnvelope : Type 0 where
  pub cursor : ℕ
  pub sender_account_id : Text
  pub sender_device_id : Text
  pub envelope : EncryptedEnvelope
  pub accepted_at_ms : ℕ
  pub sender_username : Text

pub record DeliveryUpdate : Type 0 where
  pub logical_message_id : Text
  pub delivered_at_ms : ℕ

pub record StoredDeliveryUpdate : Type 0 where
  pub cursor : ℕ
  pub update : DeliveryUpdate

pub record OwnDeviceInfo : Type 0 where
  pub device_id : Text
  pub device_name : Text
  pub pending : Bool
  pub revoked : Bool
  pub current : Bool
  pub online : Bool
  pub created_at_ms : ℕ
  pub last_authenticated_at_ms : ℕ
