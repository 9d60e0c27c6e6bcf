-- ===== src/Protocol/Tests.antt =====
-- The theorems on signed byte strings and conversation ids at concrete data.
use tui_chat.Base.{ℕ, ◌≡◌, refl, [], ◌∷◌, arith}
use tui_chat.Base.Text.{Bytes, text}
use tui_chat.Protocol.Payload.{conversation_id}
use tui_chat.Protocol.Payload.Conversation.{conversation_id_comm}
use tui_chat.Protocol.Payload.Injective.{
  device_certificate_payload-injective, auth_challenge_payload-injective,
}

abbrev key : Bytes
key = 1 ∷ []

abbrev expiry : ℕ
expiry = 30000

conversation_id_comm_example :
    conversation_id (λ bytes. bytes) (text "ann") (text "bob")
    ≡ conversation_id (λ bytes. bytes) (text "bob") (text "ann")
conversation_id_comm_example = conversation_id_comm (λ bytes. bytes) (text "ann") (text "bob")

device_certificate_payload-injective_example :
    (text "ann" ≡ text "ann")
    × (text "phone" ≡ text "phone")
    × (key ≡ key)
    × (key ≡ key)
    × (key ≡ key)
unfolding text
device_certificate_payload-injective_example =
    device_certificate_payload-injective (text "ann") (text "ann") (text "phone") (text "phone") key
      key key key key key
      (omega arith, (omega arith, (omega arith, (omega arith, (omega arith, tt)))))
      (omega arith, (omega arith, (omega arith, (omega arith, (omega arith, tt))))) refl

auth_challenge_payload-injective_example :
    (text "chat" ≡ text "chat")
    × (text "ann" ≡ text "ann")
    × (text "phone" ≡ text "phone")
    × (key ≡ key)
    × (expiry ≡ expiry)
unfolding text
auth_challenge_payload-injective_example =
    auth_challenge_payload-injective (text "chat") (text "chat") (text "ann") (text "ann")
      (text "phone") (text "phone") key key expiry expiry
      (omega arith, (omega arith, (omega arith, (omega arith, tt))))
      (omega arith, (omega arith, (omega arith, (omega arith, tt)))) (omega arith) (omega arith)
      refl
