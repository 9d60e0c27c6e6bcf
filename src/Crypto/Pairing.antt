-- ===== src/Crypto/Pairing.antt =====
-- crates/crypto/src/pairing.rs: the channel between two devices that are paired, and the three
-- numbers that their users compare. X25519, HKDF-SHA256 and XChaCha20-Poly1305 are parameters.
pub mod Agreement
use tui_chat.Base.{
  ℕ, ◌+◌, ◌*◌, ◌/◌, ◌%◌, ltb, Bool, not, List, [], ◌∷◌, ◌++◌, Option, none, some, Result, ok,
  message, bail_if, ok_or, ◌>>=◌, ◌>>◌, length, take, drop, if◌then◌else◌,
}
use tui_chat.Base.Text.{Bytes, Text, text}
use tui_chat.Protocol.Payload.{text_le}
use tui_chat.Crypto.Vault.{Cipher}

-- `was_contributory` is false for the points of low order.
pub record Curve : Type 0 where
  pub public_of : Bytes → Bytes
  pub diffie_hellman : Bytes → Bytes → Bytes
  pub was_contributory : Bytes → Bool
  pub hkdf : Bytes → Bytes → Option Bytes

pub record PairingState : Type 0 where
  pub secret : Bytes
  pub public : Bytes

pub record PairingChannel : Type 0 where
  pub key : Bytes
  pub sas : ℕ × ℕ × ℕ

-- `output[i]` of the 38 bytes.
unfoldable pub byte_at : ℕ → Bytes → ℕ
byte_at i bytes = elim (drop i bytes) [ [] ↦ 0 | b ∷ bs ↦ b ]

-- The bits that `|` joins do not overlap, so that they add up.
unfoldable pub sas_numbers : Bytes → ℕ × ℕ × ℕ
unfolding byte_at
sas_numbers output = (
  byte_at 32 output * 32 + byte_at 33 output / 8 + 1000,
  byte_at 33 output % 8 * 1024 + byte_at 34 output * 4 + byte_at 35 output / 64 + 1000,
  byte_at 35 output % 64 * 128 + byte_at 36 output / 2 + 1000,
)

-- The smaller public key comes first.
unfoldable pub pairing_info : Text → Bytes → Bytes → Bytes
pairing_info pairing_id ours peer =
    text "tui-chat-pairing-v1"
    ++ (0 ∷ (pairing_id ++ (0 ∷ (if text_le ours peer then ours ++ peer else peer ++ ours))))

module _ (curve : Curve) where
  unfoldable pub from_secret : Bytes → PairingState
  from_secret secret = record { secret = secret; public = curve.public_of secret }

  unfoldable pub establish : PairingState → Bytes → Text → Result PairingChannel
  establish self peer pairing_id = do
    let shared = curve.diffie_hellman self.secret peer
    bail_if (not (curve.was_contributory shared)) (message "invalid pairing public key")
    output ←
        ok_or (curve.hkdf shared (pairing_info pairing_id self.public peer))
          (message "pairing key derivation failed")
    ok (record { key = take 32 output; sas = sas_numbers output })

module _ (cipher : Cipher) where
  -- `PairingChannel::encrypt` with its random nonce.
  unfoldable pub encrypt : PairingChannel → Bytes → Text → Bytes → Result Bytes
  encrypt channel nonce pairing_id plaintext = do
    encrypted ←
        ok_or (cipher.seal channel.key nonce pairing_id plaintext)
          (message "pairing encryption failed")
    ok (nonce ++ encrypted)

  unfoldable pub decrypt : PairingChannel → Text → Bytes → Result Bytes
  decrypt channel pairing_id payload = do
    bail_if (ltb (length payload) 24) (message "truncated pairing payload")
    ok_or (cipher.unseal channel.key (take 24 payload) pairing_id (drop 24 payload))
        (message "pairing payload authentication failed")
