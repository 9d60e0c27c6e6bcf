-- ===== src/Protocol/Payload.antt =====
-- crates/protocol/src/lib.rs: the conversation id, and the byte strings that devices and accounts
-- sign. SHA-256 is a parameter.
pub mod Injective
pub mod Conversation
use Prim.Native.Nat.{compare, Ordering}
use tui_chat.Base.{
  ℕ, ◌+◌, ◌-◌, ◌*◌, ◌/◌, ◌%◌, ◌^◌, Bool, true, false, List, [], ◌∷◌, ◌++◌, length, ltb,
  if◌then◌else◌,
}
use tui_chat.Base.Text.{Bytes, Text, text}

abbrev pub max_frame_bytes : ℕ
max_frame_bytes = 256 * 1024

-- The byte order of `str`'s `<=`.
unfoldable pub text_le : Text → Text → Bool
text_le [] b = true
text_le (x ∷ a) [] = false
text_le (x ∷ a) (y ∷ b) = elim (compare x y) [
  | Ordering.lt ↦ true
  | Ordering.gt ↦ false
  | Ordering.eq ↦ text_le a b
]

-- `HEX[i]`
hex_digit : ℕ → ℕ
hex_digit i = if ltb i 10 then b'0' + i else b'a' + (i - 10)

unfoldable pub hex_string : Bytes → Text
unfolding hex_digit
hex_string [] = []
hex_string (byte ∷ bytes) = hex_digit (byte / 16) ∷ hex_digit (byte % 16) ∷ hex_string bytes

-- `(n as u32).to_be_bytes()`
unfoldable pub be32 : ℕ → Bytes
be32 n = (n / 2 ^ 24 % 256) ∷ (n / 2 ^ 16 % 256) ∷ (n / 2 ^ 8 % 256) ∷ (n % 256) ∷ []

-- `u64::to_be_bytes`; an `i64` that is not negative has the same bytes.
unfoldable pub be64 : ℕ → Bytes
unfolding be32
be64 n = be32 (n / 2 ^ 32) ++ be32 n

-- The bytes that are hashed for a conversation.
unfoldable pub conversation_bytes : Text → Text → Bytes
conversation_bytes first second = text "tui-chat-conversation-v1" ++ (0 ∷ (first ++ (0 ∷ second)))

unfoldable pub conversation_id : (Bytes → Bytes) → Text → Text → Text
unfolding conversation_bytes
conversation_id sha256 account_a account_b =
    if text_le account_a account_b
    then hex_string (sha256 (conversation_bytes account_a account_b))
    else hex_string (sha256 (conversation_bytes account_b account_a))

-- The loop that writes each field behind its length.
unfoldable pub fields : List Bytes → Bytes
fields [] = []
fields (f ∷ fs) = be32 (length f) ++ (f ++ fields fs)

unfoldable pub device_certificate_payload : Text → Text → Bytes → Bytes → Bytes → Bytes
device_certificate_payload account_id device_id auth_key olm_ed25519 olm_curve25519 =
    text "tui-chat-device-certificate-v1"
    ++ (0 ∷ fields (account_id ∷ device_id ∷ auth_key ∷ olm_ed25519 ∷ olm_curve25519 ∷ []))

unfoldable pub auth_challenge_payload : Text → Text → Text → Bytes → ℕ → Bytes
auth_challenge_payload domain username device_id nonce expires_at_ms =
    text "tui-chat-device-auth-v1"
    ++ (0 ∷ (fields (domain ∷ username ∷ device_id ∷ nonce ∷ []) ++ be64 expires_at_ms))
