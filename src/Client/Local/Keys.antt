-- ===== src/Client/Local/Keys.antt =====
-- What crates/client/src/local.rs encrypts before it stores it: `VaultSession` and the encodings
-- of messages, drafts, notifications and the profile.
use tui_chat.Base.{
  Bool, List, ◌++◌, Option, Result, ok, err, message, ok_or, ◌>>=◌, ◌==◌, nat_eq, if◌then◌else◌,
}
use tui_chat.Base.Text.{Bytes, Text, text}
use tui_chat.Crypto.Blob.{EncryptedBlob, to_bytes, from_bytes}
use tui_chat.Crypto.Vault.{Cipher, encrypt, decrypt, decrypt_blob}
use tui_chat.Client.Local.Rows.{ChatMessage, Notification}

pub record VaultSession : Type 0 where
  pub key : Bytes
  pub legacy_passphrase : Option Text

-- What the profile is written from; the identity and the Olm machine are given by the answers of
-- their `to_bytes`.
pub record RuntimeProfile : Type 0 where
  pub username : Text
  pub account_id : Text
  pub server_url : Text
  pub identity : Result Bytes
  pub machine : Result Bytes
  pub pending : Bool
  pub pairing_secret : Option Bytes
  pub account_master_public : Bytes
  pub spki_pin : Option Text
  pub server_capabilities : List Text

pub record StoredProfile : Type 0 where
  pub username : Text
  pub account_id : Text
  pub server_url : Text
  pub identity : Bytes
  pub machine : Bytes
  pub pending : Bool
  pub pairing_secret : Option Bytes
  pub account_master_public : Bytes
  pub spki_pin : Option Text
  pub server_capabilities : List Text

-- The third-party code under the store: the cipher, postcard, and serde_json for blobs, for byte
-- vectors, and for `NotificationData`, which stands for the text that it is written as.
pub record Formats : Type 0 where
  pub cipher : Cipher
  pub postcard : StoredProfile → Result Bytes
  pub json_blob : Bytes → Result EncryptedBlob
  pub json_bytes : Bytes → Result Bytes
  pub json_data : Bytes → Result Bytes

module _ (formats : Formats) where
  -- `VaultSession::encrypt` with its random nonce.
  unfoldable pub seal : VaultSession → Bytes → Bytes → Bytes → Result EncryptedBlob
  seal vault nonce aad plaintext = encrypt formats.cipher vault.key nonce aad plaintext

  -- `VaultSession::decrypt`
  unfoldable pub unseal : VaultSession → Bytes → EncryptedBlob → Result Bytes
  unseal vault aad blob =
      if blob.version == 2
      then decrypt formats.cipher vault.key aad blob
      else if blob.version == 1
      then (do
        passphrase ← ok_or vault.legacy_passphrase (message "legacy local data requires migration")
        decrypt_blob formats.cipher passphrase aad blob)
      else err (message "unsupported local encryption version")

  unfoldable pub decode_encrypted_blob : Bytes → Result EncryptedBlob
  decode_encrypted_blob encoded = elim (from_bytes formats.json_blob encoded) [
    | ok blob ↦ ok blob
    | err error ↦ formats.json_bytes encoded >>= from_bytes formats.json_blob
  ]

  -- `encrypt(aad, text)?.to_bytes()`, and the way back.
  unfoldable pub seal_bytes : VaultSession → Bytes → Bytes → Bytes → Result Bytes
  seal_bytes vault nonce aad plaintext = do
    blob ← seal vault nonce aad plaintext
    ok (to_bytes blob)

  unfoldable pub unseal_bytes : VaultSession → Bytes → Bytes → Result Bytes
  unseal_bytes vault aad encoded = do blob ← decode_encrypted_blob encoded; unseal vault aad blob

  unfoldable pub encode_message : VaultSession → Bytes → ChatMessage → Result Bytes
  encode_message vault nonce m = seal_bytes vault nonce (text "message/v1/" ++ m.id) m.body

  unfoldable pub encode_notification : VaultSession → Bytes → Notification → Result Bytes
  encode_notification vault nonce n =
      seal_bytes vault nonce (text "notification/v1/" ++ n.id) n.payload

  unfoldable pub encode_profile : VaultSession → Bytes → RuntimeProfile → Result Bytes
  encode_profile vault nonce p = do
    identity ← p.identity
    machine ← p.machine
    encoded ← formats.postcard (record {
      username = p.username;
      account_id = p.account_id;
      server_url = p.server_url;
      identity = identity;
      machine = machine;
      pending = p.pending;
      pairing_secret = p.pairing_secret;
      account_master_public = p.account_master_public;
      spki_pin = p.spki_pin;
      server_capabilities = p.server_capabilities;
    })
    seal_bytes vault nonce (text "profile/v1") (text "TCP4" ++ encoded)
