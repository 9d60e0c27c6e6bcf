-- ===== src/Crypto/Blob.antt =====
-- `EncryptedBlob` of crates/crypto/src/vault.rs. serde_json, which reads the older blobs, is a
-- parameter.
use tui_chat.Base.{
  ℕ, ltb, true, false, Result, ok, message, bail_if, ◌>>◌, length, drop, nat_eq, list_eq,
}
use tui_chat.Base.Text.{Bytes, text}
use tui_chat.Crypto.Frame.{starts_with, slice, first_byte, frame_bytes}

pub record EncryptedBlob : Type 0 where
  pub version : ℕ
  pub salt : Bytes
  pub nonce : Bytes
  pub ciphertext : Bytes

unfoldable pub to_bytes : EncryptedBlob → Bytes
unfolding frame_bytes
to_bytes blob = frame_bytes (text "TCB") blob.version blob.salt blob.nonce blob.ciphertext

unfoldable pub from_bytes : (Bytes → Result EncryptedBlob) → Bytes → Result EncryptedBlob
from_bytes json encoded = elim (starts_with encoded (text "TCB")) [
  | false ↦ json encoded
  | true ↦ do
    bail_if (ltb (length encoded) 44) (message "truncated encrypted blob")
    ok (record {
      version = first_byte (drop 3 encoded);
      salt = slice 4 20 encoded;
      nonce = slice 20 44 encoded;
      ciphertext = drop 44 encoded;
    })
]
