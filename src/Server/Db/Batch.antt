-- ===== src/Server/Db/Batch.antt =====
-- The checks on a batch of envelopes that `store_envelopes` of crates/server/src/db.rs begins with.
use tui_chat.Base.{
  ltb, Bool, ◌||◌, List, [], ◌∷◌, Result, ok, err, message, ◌>>◌, bail_if, if◌then◌else◌, ◌==◌,
  ◌!=◌, list_eq, nat_eq, length, any, unwrap_or, first,
}
use tui_chat.Base.Text.{Bytes, Text}
use tui_chat.Base.Int.{ℤ, int_eq}
use tui_chat.Protocol.Messages.{EncryptedEnvelope}
use tui_chat.Protocol.Payload.{conversation_id, max_frame_bytes}

-- What the checks of a batch establish before the transaction.
pub record Batch : Type 0 where
  pub logical : Text
  pub peer : Text
  pub conversation : Text
  pub client_sent_at_ms : ℤ

-- The `BTreeSet` of the recipients other than the sender; its order plays no part.
unfoldable pub peers_of : Text → List EncryptedEnvelope → List Text
peers_of sender [] = []
peers_of sender (e ∷ es) =
    let rest = peers_of sender es in
    if e.recipient_account_id == sender || any (λ p. p == e.recipient_account_id) rest
    then rest
    else e.recipient_account_id ∷ rest

unfoldable pub is_bad_envelope : Text → EncryptedEnvelope → Bool
is_bad_envelope conversation e =
    e.conversation_id != conversation
    || length e.ciphertext == 0
    || ltb max_frame_bytes (length e.ciphertext)

unfoldable pub check_batch : (Bytes → Bytes) → Text → List EncryptedEnvelope → Result Batch
unfolding peers_of is_bad_envelope
check_batch sha256 sender [] = err (message "envelope batch must contain 1..=16 entries")
check_batch sha256 sender (e ∷ es) = do
  bail_if (ltb 16 (length (e ∷ es))) (message "envelope batch must contain 1..=16 entries")
  bail_if
      (length e.logical_message_id == 0
        || any (λ x. x.logical_message_id != e.logical_message_id) (e ∷ es))
      (message "batch mixes logical messages")
  let peers = peers_of sender (e ∷ es)
  bail_if (ltb 1 (length peers)) (message "v1 supports one peer per message")
  let peer = unwrap_or (first peers) sender
  let conversation = conversation_id sha256 sender peer
  bail_if (any (is_bad_envelope conversation) (e ∷ es))
      (message "invalid conversation or ciphertext")
  ok (record {
    logical = e.logical_message_id;
    peer = peer;
    conversation = conversation;
    client_sent_at_ms = e.client_sent_at_ms;
  })
