-- ===== src/Protocol/Frames.antt =====
-- The frames of crates/protocol/proto/chat.proto and the constants of crates/protocol/src/lib.rs.
-- Times that a client chooses are ℤ; those of the server are ℕ.
use tui_chat.Base.{ℕ, Bool, List, Option}
use tui_chat.Base.Text.{Bytes, Text, text}
use tui_chat.Base.Int.{ℤ}
use tui_chat.Protocol.Messages.{
  DeviceBundle, OneTimeKey, EncryptedEnvelope, StoredEnvelope, DeliveryUpdate, StoredDeliveryUpdate,
  OwnDeviceInfo,
}

abbrev pub protocol_version : ℕ
protocol_version = 2

abbrev pub capability_own_devices : Text
capability_own_devices = text "own_devices_v1"

abbrev pub capability_stable_errors : Text
capability_stable_errors = text "stable_errors_v1"

pub data BootstrapMode : Type 0 where
  mode_none first_device pending_device : BootstrapMode

pub record ClientHello : Type 0 where
  pub username : Text
  pub device_id : Text
  pub capabilities : List Text

pub record AuthChallenge : Type 0 where
  pub nonce : Bytes
  pub expires_at_ms : ℕ

pub record DeviceAuth : Type 0 where
  pub username : Text
  pub device_id : Text
  pub signature : Bytes

pub record PasswordAuth : Type 0 where
  pub username : Text
  pub password : Text
  pub device_id : Text

pub record Authenticated : Type 0 where
  pub account_id : Text
  pub username : Text
  pub device_id : Text
  pub password_change_required : Bool
  pub pending_device : Bool
  pub account_master_key : Bytes
  pub roster_revision : ℕ
  pub bootstrap_mode : BootstrapMode
  pub capabilities : List Text

pub record BootstrapDevice : Type 0 where
  pub device_id : Text
  pub device_name : Text
  pub account_master_key : Bytes
  pub auth_signing_key : Bytes
  pub olm_ed25519_key : Bytes
  pub olm_curve25519_key : Bytes
  pub certificate_signature : Bytes
  pub one_time_keys : List OneTimeKey
  pub sas_public_key : Bytes

pub record ChangePassword : Type 0 where
  pub current_password : Text
  pub new_password : Text

pub record UserBundle : Type 0 where
  pub account_id : Text
  pub username : Text
  pub account_master_key : Bytes
  pub roster_revision : ℕ
  pub devices : List DeviceBundle

pub record SyncRequest : Type 0 where
  pub after_cursor : ℕ
  pub limit : ℕ
  pub after_status_cursor : ℕ

pub record SyncBatch : Type 0 where
  pub envelopes : List StoredEnvelope
  pub next_cursor : ℕ
  pub has_more : Bool
  pub delivery_updates : List StoredDeliveryUpdate
  pub next_status_cursor : ℕ

pub record PairingRequest : Type 0 where
  pub pairing_id : Text
  pub pending_device_id : Text
  pub pending_device_name : Text
  pub sas_public_key : Bytes
  pub pending_device : DeviceBundle

pub record PairingEvent : Type 0 where
  pub pairing_id : Text
  pub target_device_id : Text
  pub event_type : Text
  pub payload : Bytes
  pub sender_device_id : Text
  pub server_event_id : ℕ
  pub sender_device_name : Text

pub record ActivateDevice : Type 0 where
  pub pairing_id : Text
  pub device : Option DeviceBundle
  pub roster_revision : ℕ
  pub roster_signature : Bytes

-- `ErrorFrame`
pub record ErrorFrame : Type 0 where
  pub code : Text
  pub message : Text
  pub retryable : Bool

pub data Body : Type 0 where
  client_hello : ClientHello → Body
  auth_challenge : AuthChallenge → Body
  device_auth : DeviceAuth → Body
  password_auth : PasswordAuth → Body
  authenticated : Authenticated → Body
  bootstrap_device : BootstrapDevice → Body
  change_password : ChangePassword → Body
  lookup_user : Text → Body
  user_bundle : UserBundle → Body
  publish_pre_keys : List OneTimeKey → Body
  claim_pre_key : Text → Text → Body
  pre_key_bundle : DeviceBundle → OneTimeKey → Body
  send_envelopes : List EncryptedEnvelope → Body
  send_accepted : Text → ℕ → Body
  sync_request : SyncRequest → Body
  sync_batch : SyncBatch → Body
  ack_envelope : Text → Body
  delivery_update : DeliveryUpdate → Body
  pairing_request : PairingRequest → Body
  pairing_event : PairingEvent → Body
  activate_device_frame : ActivateDevice → Body
  ack_pairing_event_frame : ℕ → Body
  list_own_devices : Body
  own_device_list_frame : List OwnDeviceInfo → Body
  revoke_own_device_frame : Text → Body
  error : ErrorFrame → Body
  ping : ℤ → Body
  pong : ℤ → Body
  operation_ok : Body

-- The version is checked before a frame is handled, and `frame` writes the current one.
pub record Frame : Type 0 where
  pub id : Text
  pub body : Option Body
