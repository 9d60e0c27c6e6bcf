-- ===== src/Crypto/WrappedKey.antt =====
-- `WrappedVaultKey` of crates/crypto/src/vault.rs. serde_json, which reads the older keys, is a
-- parameter.
use tui_chat.Base.{
  ℕ, ltb, true, false, Result, ok, message, bail_if, ◌>>◌, length, drop, nat_eq, list_eq,
}
use tui_chat.Base.Text.{Bytes, text}
use tui_chat.Crypto.Frame.{starts_with, slice, first_byte, frame_bytes}

pub record WrappedVaultKey : Type 0 where
  pub version : ℕ
  pub salt : Bytes
  pub nonce : Bytes
  pub ciphertext : Bytes

unfoldable pub to_bytes : WrappedVaultKey → Bytes
unfolding frame_bytes
to_bytes wrapped =
    frame_bytes (text "TCW") wrapped.version wrapped.salt wrapped.nonce wrapped.ciphertext

unfoldable pub from_bytes : (Bytes → Result WrappedVaultKey) → Bytes → Result WrappedVaultKey
from_bytes json encoded = elim (starts_with encoded (text "TCW")) [
  | false ↦ json encoded
  | true ↦ do
    bail_if (ltb (length encoded) 44) (message "truncated wrapped vault key")
    ok (record {
      version = first_byte (drop 3 encoded);
      salt = slice 4 20 encoded;
      nonce = slice 20 44 encoded;
      ciphertext = drop 44 encoded;
    })
]
