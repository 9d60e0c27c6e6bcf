-- ===== src/Protocol/Payload/Conversation.antt =====
-- The conversation id of crates/protocol/src/lib.rs and the order in which its accounts are named.
use tui_chat.Base.{◌≡◌, refl, true, false, [], ◌∷◌, arith}
use tui_chat.Base.Text.{Bytes, Text}
use tui_chat.Protocol.Payload.{text_le, conversation_id}

pub text_le-total : (a b : Text) → text_le a b ≡ false → text_le b a ≡ true
unfolding text_le
text_le-total [] b h = cc
text_le-total (x ∷ a) [] h = refl
text_le-total (x ∷ a) (y ∷ b) h = ground (arith, h, text_le-total a b)

pub text_le-antisym : (a b : Text) → text_le a b ≡ true → text_le b a ≡ true → a ≡ b
unfolding text_le
text_le-antisym [] [] h k = refl
text_le-antisym [] (y ∷ b) h k = cc
text_le-antisym (x ∷ a) [] h k = cc
text_le-antisym (x ∷ a) (y ∷ b) h k = ground (arith, h, k, text_le-antisym a b)

-- Both accounts of a conversation compute one id for it, whatever the hash.
pub conversation_id_comm :
    (sha256 : Bytes → Bytes) (a b : Text) → conversation_id sha256 a b ≡ conversation_id sha256 b a
unfolding conversation_id
conversation_id_comm sha256 a b =
    ground (arith, text_le-total a b, text_le-total b a, text_le-antisym a b)
