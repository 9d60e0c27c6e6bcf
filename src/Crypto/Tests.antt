-- ===== src/Crypto/Tests.antt =====
-- Runs of crates/crypto on concrete data, with a cipher that changes nothing.
use mathlib.Core.Bool.{true}
use tui_chat.Base.{
  ℕ, ◌+◌, ◌≡◌, ◌≤◌, refl, sym, [], ◌∷◌, ◌++◌, some, Result, ok, err, message, length, arith,
  list_eq, nat_eq,
}
use tui_chat.Base.Text.{Bytes, text}
use tui_chat.Crypto.Frame.{starts_with, slice, first_byte}
use tui_chat.Crypto.Blob
use tui_chat.Crypto.Blob.{EncryptedBlob}
use tui_chat.Crypto.WrappedKey.{WrappedVaultKey}
use tui_chat.Crypto.Vault.{Cipher, Unseals, create, unlock}
use tui_chat.Crypto.RoundTrip.{to_bytes-from_bytes, unlock-create}
use tui_chat.Crypto.Pairing
use tui_chat.Crypto.Pairing.{
  Curve, PairingChannel, sas_numbers, byte_at, pairing_info, from_secret, establish,
}
use tui_chat.Crypto.Pairing.Agreement.{Agrees, IsBytes, sas_numbers_bounds, establish-decrypt}

abbrev open_cipher : Cipher
open_cipher = record {
  seal = λ key nonce aad plain. some plain;
  unseal = λ key nonce aad sealed. some sealed;
  derive_key = λ passphrase salt. ok salt;
}

open_cipher-Unseals : Unseals open_cipher
open_cipher-Unseals key nonce aad plain sealed e = sym e

abbrev eight : Bytes
eight = 1 ∷ 2 ∷ 3 ∷ 4 ∷ 5 ∷ 6 ∷ 7 ∷ 8 ∷ []

abbrev sixteen : Bytes
sixteen = eight ++ eight

abbrev twenty_four : Bytes
twenty_four = sixteen ++ eight

abbrev thirty_two : Bytes
thirty_two = sixteen ++ sixteen

abbrev a_blob : EncryptedBlob
a_blob = record { version = 2; salt = sixteen; nonce = twenty_four; ciphertext = 9 ∷ [] }

abbrev a_blob_bytes : Bytes
a_blob_bytes = 84 ∷ 67 ∷ 66 ∷ 2 ∷ (sixteen ++ (twenty_four ++ (9 ∷ [])))

abbrev no_json : Bytes → Result EncryptedBlob
no_json encoded = err (message "expected value")

a_blob_starts : starts_with a_blob_bytes (text "TCB") ≡ true
unfolding starts_with text list_eq nat_eq
a_blob_starts = refl

a_blob_read : Blob.from_bytes no_json a_blob_bytes ≡ ok a_blob
unfolding Blob.from_bytes starts_with text list_eq nat_eq slice first_byte
a_blob_read = refl

to_bytes-from_bytes_example : (Blob.to_bytes a_blob ≡ a_blob_bytes) × (44 ≤ length a_blob_bytes)
to_bytes-from_bytes_example =
    to_bytes-from_bytes no_json a_blob_bytes a_blob a_blob_starts a_blob_read

abbrev a_wrapped_key : WrappedVaultKey
a_wrapped_key = record { version = 2; salt = sixteen; nonce = twenty_four; ciphertext = thirty_two }

a_key_made :
    create open_cipher thirty_two sixteen twenty_four (112 ∷ 119 ∷ [])
    ≡ ok (thirty_two, a_wrapped_key)
unfolding create
a_key_made = refl

unlock-create_example :
    (thirty_two ≡ thirty_two) × (unlock open_cipher (112 ∷ 119 ∷ []) a_wrapped_key ≡ ok thirty_two)
unlock-create_example =
    unlock-create open_cipher thirty_two sixteen twenty_four (112 ∷ 119 ∷ []) a_wrapped_key
      thirty_two open_cipher-Unseals refl a_key_made

abbrev a_output : Bytes
a_output = thirty_two ++ (255 ∷ 0 ∷ 200 ∷ 64 ∷ 31 ∷ 7 ∷ [])

a_output-IsBytes : IsBytes a_output
a_output-IsBytes = omega arith

sas_numbers_bounds_example :
    let (x, y, z) = sas_numbers a_output in
    ((1000 ≤ x) × (x ≤ 9191)) × ((1000 ≤ y) × (y ≤ 9191)) × ((1000 ≤ z) × (z ≤ 9191))
sas_numbers_bounds_example = sas_numbers_bounds a_output a_output-IsBytes

-- A curve where the shared secret is the sum of two numbers.
abbrev sum_curve : Curve
sum_curve = record {
  public_of = λ secret. secret;
  diffie_hellman = λ secret peer. (byte_at 0 secret + byte_at 0 peer) ∷ [];
  was_contributory = λ shared. true;
  hkdf = λ shared info. some (shared ++ a_output);
}

sum_curve-Agrees : Agrees sum_curve
sum_curve-Agrees a b = ground arith

abbrev sum_channel : PairingChannel
sum_channel = record {
  key = 7 ∷ (sixteen ++ (eight ++ (1 ∷ 2 ∷ 3 ∷ 4 ∷ 5 ∷ 6 ∷ 7 ∷ [])));
  sas = (1287, 8171, 2056);
}

sum_channel_ours :
    establish sum_curve (from_secret sum_curve (3 ∷ [])) (4 ∷ []) (112 ∷ []) ≡ ok sum_channel
unfolding establish from_secret pairing_info sas_numbers byte_at text
sum_channel_ours = refl

sum_channel_theirs :
    establish sum_curve (from_secret sum_curve (4 ∷ [])) (3 ∷ []) (112 ∷ []) ≡ ok sum_channel
unfolding establish from_secret pairing_info sas_numbers byte_at text
sum_channel_theirs = refl

a_payload :
    Pairing.encrypt open_cipher sum_channel twenty_four (112 ∷ []) (104 ∷ 105 ∷ [])
    ≡ ok (twenty_four ++ (104 ∷ 105 ∷ []))
unfolding Pairing.encrypt
a_payload = refl

establish-decrypt_example :
    (◌≡◌ {A = ℕ × ℕ × ℕ} (1287, 8171, 2056) (1287, 8171, 2056))
    × (Pairing.decrypt open_cipher sum_channel (112 ∷ []) (twenty_four ++ (104 ∷ 105 ∷ []))
        ≡ ok (104 ∷ 105 ∷ []))
establish-decrypt_example =
    establish-decrypt sum_curve open_cipher (3 ∷ []) (4 ∷ []) twenty_four (104 ∷ 105 ∷ [])
      (twenty_four ++ (104 ∷ 105 ∷ [])) (112 ∷ []) sum_channel sum_channel sum_curve-Agrees
      open_cipher-Unseals refl sum_channel_ours sum_channel_theirs a_payload
