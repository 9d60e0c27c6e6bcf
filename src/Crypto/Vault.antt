-- ===== src/Crypto/Vault.antt =====
-- crates/crypto/src/vault.rs: the vault key, and encryption by a passphrase.
use tui_chat.Base.{
  [], ◌∷◌, Option, some, Result, ok, message, bail_if, ok_or, ◌>>=◌, ◌>>◌, ◌!=◌, nat_eq, length,
  ◌≡◌,
}
use tui_chat.Base.Text.{Bytes, Text, text}
use tui_chat.Crypto.Blob.{EncryptedBlob}
use tui_chat.Crypto.WrappedKey.{WrappedVaultKey}

-- XChaCha20-Poly1305 with a key, a nonce and associated data, and Argon2id with the parameters of
-- `derive_key`.
pub record Cipher : Type 0 where
  pub seal : Bytes → Bytes → Bytes → Bytes → Option Bytes
  pub unseal : Bytes → Bytes → Bytes → Bytes → Option Bytes
  pub derive_key : Text → Bytes → Result Bytes

-- Decryption with the key, the nonce and the associated data of an encryption undoes it.
abbrev pub Unseals : Cipher → Type 0
Unseals cipher =
    (key nonce aad plain sealed : Bytes)
    → cipher.seal key nonce aad plain ≡ some sealed
    → cipher.unseal key nonce aad sealed ≡ some plain

abbrev vault_key_aad : Bytes
vault_key_aad = text "tui-chat-vault-key-v2"

module _ (cipher : Cipher) where
  -- `VaultKey::create` with its random data key, salt and nonce.
  unfoldable pub create : Bytes → Bytes → Bytes → Text → Result (Bytes × WrappedVaultKey)
  create data_key salt nonce passphrase = do
    wrapping_key ← cipher.derive_key passphrase salt
    ciphertext ←
        ok_or (cipher.seal wrapping_key nonce vault_key_aad data_key)
          (message "failed to wrap local vault key")
    ok (data_key, record { version = 2; salt = salt; nonce = nonce; ciphertext = ciphertext })

  -- `VaultKey::unlock`
  unfoldable pub unlock : Text → WrappedVaultKey → Result Bytes
  unlock passphrase wrapped = do
    bail_if (wrapped.version != 2) (message "unsupported wrapped vault key version")
    wrapping_key ← cipher.derive_key passphrase wrapped.salt
    plaintext ←
        ok_or (cipher.unseal wrapping_key wrapped.nonce vault_key_aad wrapped.ciphertext)
          (message "wrong local passphrase or corrupted vault key")
    bail_if (length plaintext != 32) (message "invalid local vault key length")
    ok plaintext

  -- `VaultKey::encrypt` and `VaultKey::decrypt`
  unfoldable pub encrypt : Bytes → Bytes → Bytes → Bytes → Result EncryptedBlob
  encrypt key nonce aad plaintext = do
    ciphertext ← ok_or (cipher.seal key nonce aad plaintext) (message "local encryption failed")
    ok (record {
      version = 2;
      salt = 0 ∷ 0 ∷ 0 ∷ 0 ∷ 0 ∷ 0 ∷ 0 ∷ 0 ∷ 0 ∷ 0 ∷ 0 ∷ 0 ∷ 0 ∷ 0 ∷ 0 ∷ 0 ∷ [];
      nonce = nonce;
      ciphertext = ciphertext;
    })

  unfoldable pub decrypt : Bytes → Bytes → EncryptedBlob → Result Bytes
  decrypt key aad blob = do
    bail_if (blob.version != 2) (message "encrypted blob does not use the unlocked vault key")
    ok_or (cipher.unseal key blob.nonce aad blob.ciphertext)
        (message "wrong local vault key or corrupted data")

  unfoldable pub encrypt_blob : Bytes → Bytes → Text → Bytes → Bytes → Result EncryptedBlob
  encrypt_blob salt nonce passphrase aad plaintext = do
    key ← cipher.derive_key passphrase salt
    ciphertext ← ok_or (cipher.seal key nonce aad plaintext) (message "local encryption failed")
    ok (record { version = 1; salt = salt; nonce = nonce; ciphertext = ciphertext })

  unfoldable pub decrypt_blob : Text → Bytes → EncryptedBlob → Result Bytes
  decrypt_blob passphrase aad blob = do
    bail_if (blob.version != 1) (message "unsupported encrypted storage version")
    key ← cipher.derive_key passphrase blob.salt
    ok_or (cipher.unseal key blob.nonce aad blob.ciphertext)
        (message "wrong local passphrase or corrupted data")
