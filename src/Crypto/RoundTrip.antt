-- ===== src/Crypto/RoundTrip.antt =====
-- What crates/crypto/src/vault.rs writes is read back.
use tui_chat.Base.{
  true, ◌++◌, Result, ok, ok_or, list_eq, nat_eq, length, drop, ◌≡◌, ◌≤◌, refl, ◌∙◌, arith,
  Option-cases, >>=-eq-ok, ok_or-eq-ok, inl, inr,
}
use tui_chat.Base.Text.{Bytes, Text, text}
use tui_chat.Crypto.Frame.{
  starts_with, slice, first_byte, frame_bytes, take-append, drop-append, length-append,
  starts_with-append, frame_bytes-slice,
}
use tui_chat.Crypto.Blob
use tui_chat.Crypto.Blob.{EncryptedBlob}
use tui_chat.Crypto.WrappedKey.{WrappedVaultKey}
use tui_chat.Crypto.Vault.{
  Cipher, Unseals, create, unlock, encrypt, decrypt, encrypt_blob, decrypt_blob,
}

blob_starts : (blob : EncryptedBlob) → starts_with (Blob.to_bytes blob) (text "TCB") ≡ true
unfolding Blob.to_bytes frame_bytes
blob_starts blob = starts_with-append (text "TCB") _

-- A blob whose salt has 16 bytes and whose nonce has 24 is read back from its bytes, and whatever
-- serde_json makes of other input.
pub from_bytes-to_bytes :
    (json : Bytes → Result EncryptedBlob) (blob : EncryptedBlob)
    → length blob.salt ≡ 16
    → length blob.nonce ≡ 24
    → Blob.from_bytes json (Blob.to_bytes blob) ≡ ok blob
unfolding Blob.to_bytes Blob.from_bytes text first_byte frame_bytes
from_bytes-to_bytes json blob s n =
    rw (blob_starts blob, Blob.from_bytes)
      (ground (
        arith,
        take-append blob.salt (blob.nonce ++ blob.ciphertext) 16 s,
        drop-append blob.salt (blob.nonce ++ blob.ciphertext) 16 s,
        take-append blob.nonce blob.ciphertext 24 n,
        drop-append blob.nonce blob.ciphertext 24 n,
        length-append blob.salt (blob.nonce ++ blob.ciphertext),
        length-append blob.nonce blob.ciphertext,
      ))

three_bytes : length (text "TCB") ≡ 3
unfolding text
three_bytes = refl

from_bytes_marked :
    (json : Bytes → Result EncryptedBlob) (encoded : Bytes) (blob : EncryptedBlob)
    → starts_with encoded (text "TCB") ≡ true
    → Blob.from_bytes json encoded ≡ ok blob
    → (44 ≤ length encoded)
      × (Blob.to_bytes blob
          ≡ frame_bytes
              (text "TCB")
              (first_byte (drop 3 encoded))
              (slice 4 20 encoded)
              (slice 20 44 encoded)
              (drop 44 encoded))
unfolding Blob.from_bytes Blob.to_bytes
from_bytes_marked json encoded blob marked read = ground arith

-- A blob with the marker of this format is one blob's bytes: what `from_bytes` returns for it is
-- written back to the same bytes, and one that is shorter than 44 bytes is refused.
pub to_bytes-from_bytes :
    (json : Bytes → Result EncryptedBlob) (encoded : Bytes) (blob : EncryptedBlob)
    → starts_with encoded (text "TCB") ≡ true
    → Blob.from_bytes json encoded ≡ ok blob
    → (Blob.to_bytes blob ≡ encoded) × (44 ≤ length encoded)
to_bytes-from_bytes json encoded blob marked read =
    let (len, framed) = from_bytes_marked json encoded blob marked read in
    (framed ∙ frame_bytes-slice (text "TCB") encoded three_bytes len marked, len)

-- Where decryption undoes encryption: the passphrase that made a vault key unlocks it, and gives
-- the same key, the random data key of 32 bytes.
pub unlock-create :
    (cipher : Cipher) (data_key salt nonce : Bytes) (passphrase : Text) (wrapped : WrappedVaultKey)
    (key : Bytes)
    → Unseals cipher
    → length data_key ≡ 32
    → create cipher data_key salt nonce passphrase ≡ ok (key, wrapped)
    → (key ≡ data_key) × (unlock cipher passphrase wrapped ≡ ok key)
unfolding create unlock
unlock-create cipher data_key salt nonce passphrase wrapped key law len made =
    let (wk, derived, rest) = >>=-eq-ok (cipher.derive_key passphrase salt) _ made in
    let (sealed, enc, done) =
      >>=-eq-ok (ok_or (cipher.seal wk nonce (text "tui-chat-vault-key-v2") data_key) _) _ rest in
    ground
      (arith, law wk nonce (text "tui-chat-vault-key-v2") data_key sealed (ok_or-eq-ok _ _ enc))

-- Decryption undoes encryption.
pub decrypt-encrypt :
    (cipher : Cipher) (key nonce aad plain : Bytes) (blob : EncryptedBlob)
    → Unseals cipher
    → encrypt cipher key nonce aad plain ≡ ok blob
    → decrypt cipher key aad blob ≡ ok plain
unfolding encrypt decrypt
decrypt-encrypt cipher key nonce aad plain blob law made =
    elim (Option-cases (cipher.seal key nonce aad plain)) [
      | inl no_seal ↦ cc
      | inr (sealed, e) ↦ ground (arith, law key nonce aad plain sealed e)
    ]

-- The same for the older blobs, whose key comes from the passphrase.
decrypt_blob-encrypt_blob :
    (cipher : Cipher) (salt nonce : Bytes) (passphrase : Text) (aad plain : Bytes)
    (blob : EncryptedBlob)
    → Unseals cipher
    → encrypt_blob cipher salt nonce passphrase aad plain ≡ ok blob
    → decrypt_blob cipher passphrase aad blob ≡ ok plain
unfolding encrypt_blob decrypt_blob
decrypt_blob-encrypt_blob cipher salt nonce passphrase aad plain blob law made =
    let (key, derived, rest) = >>=-eq-ok (cipher.derive_key passphrase salt) _ made in
    let (sealed, enc, done) = >>=-eq-ok (ok_or (cipher.seal key nonce aad plain) _) _ rest in
    ground (arith, law key nonce aad plain sealed (ok_or-eq-ok _ _ enc))
