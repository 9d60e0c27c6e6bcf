-- ===== src/Client/Local/Operations.antt =====
-- What the operations of crates/client/src/local.rs do to the tables of messages and summaries:
-- each does nothing, stores one message, sets a status, or deletes a conversation.
use tui_chat.Client.Local.Deletion.{delete_conversation_state, upsert_conversation_tombstone}
use tui_chat.Base.{
  true, ℕ, ◌≡◌, refl, subst, Bool, List, [], ◌∷◌, ok, >>=-eq-ok, ok-injective, list_eq, nat_eq,
  arith, ltb,
}
use tui_chat.Client.Local.Kinds.{MessageStatus, status_str, status_rank}
use tui_chat.Client.Local.Rows.{
  MessageRow, ChatMessage, Notification, NotificationRow, ConversationTombstone, TombstoneRow,
  TransferContact, LocalDb,
}
use tui_chat.Base.Text.{Bytes, Text}
use tui_chat.Base.Int.{int_eq}
use tui_chat.Protocol.Frames.{UserBundle}
use tui_chat.Client.Local.Keys.{
  Formats, VaultSession, RuntimeProfile, encode_profile, encode_message, encode_notification,
}
use tui_chat.Client.Local.Messages.{save_message, insert_message, message_row, set_status}
use tui_chat.Client.Local.Notifications.{upsert_notification, save_notification}
use tui_chat.Client.Local.Sync.{put_outbox, set_envelope_cursor, save_draft}
use tui_chat.Client.Local.Contacts.{Codec, upsert_contact, import_contacts}
use tui_chat.Client.Local.Commit.{
  Nonces, set_profile, save_profile, commit_outgoing, commit_control_outgoing, commit_inbound,
  commit_unverified_inbound, commit_control, commit_conversation_deletion,
}

abbrev pub SameTables : LocalDb → LocalDb → Type 0
SameTables a b = (b.messages ≡ a.messages) × (b.conversation_summaries ≡ a.conversation_summaries)

-- A change of status is to a higher one.
pub data Effect (conversation : Text → Text) : LocalDb → LocalDb → Type 0 where
  idle : {a b : LocalDb} → SameTables a b → Effect conversation a b
  stored :
      (row : MessageRow) (b c : LocalDb) {a d : LocalDb}
      → row.conversation_id ≡ conversation row.peer_account_id
      → SameTables a b
      → insert_message row b ≡ ok c
      → SameTables c d
      → Effect conversation a d
  set :
      (p : MessageRow → Bool) (status : MessageStatus) (a : LocalDb)
      → ((m : MessageRow)
          → p m ≡ true
          → ltb (status_rank m.status) (status_rank (status_str status)) ≡ true)
      → Effect conversation a (set_status p (status_str status) a)
  dropped :
      (peer c : Text) {a b : LocalDb}
      → SameTables (delete_conversation_state peer c a) b
      → Effect conversation a b

module _ (conversation : Text → Text) (formats : Formats) (vault : VaultSession)
    (codec : Codec) where
  upsert_notification-SameTables :
      (renew : Bool) (row : NotificationRow) (db db' : LocalDb)
      → upsert_notification renew row db ≡ ok db'
      → SameTables db db'
  unfolding upsert_notification
  upsert_notification-SameTables renew row db db' e = (ground (arith, e), ground (arith, e))

  pub tombstone-SameTables :
      (row : TombstoneRow) (db db' : LocalDb)
      → upsert_conversation_tombstone row db ≡ ok db'
      → SameTables db db'
  unfolding upsert_conversation_tombstone
  tombstone-SameTables row db db' e = (ground (arith, e), ground (arith, e))

  pub commit_outgoing-Effect :
      (n : Nonces) (p : RuntimeProfile) (m : ChatMessage) (frame : Bytes) (now : ℕ)
      (db db' : LocalDb)
      → m.conversation_id ≡ conversation m.peer_account_id
      → commit_outgoing formats vault n p m frame now db ≡ ok db'
      → Effect conversation db db'
  unfolding commit_outgoing put_outbox set_profile message_row
  commit_outgoing-Effect n p m frame now db db' own e =
      let (blob, enc, e1) = >>=-eq-ok (encode_profile formats vault n.profile p) _ e in
      let (body, enc', e2) = >>=-eq-ok (encode_message formats vault n.body m) _ e1 in
      let (kept, ins, e3) = >>=-eq-ok (insert_message _ _) _ e2 in
      subst (Effect conversation db) (ok-injective e3) (
        Effect.stored (message_row m body) (set_profile blob db) kept own (refl, refl) ins
          (refl, refl))

  pub commit_inbound-Effect :
      (n : Nonces) (p : RuntimeProfile) (m : ChatMessage) (cursor : ℕ) (db db' : LocalDb)
      → m.conversation_id ≡ conversation m.peer_account_id
      → commit_inbound formats vault n p m cursor db ≡ ok db'
      → Effect conversation db db'
  unfolding commit_inbound set_envelope_cursor set_profile message_row
  commit_inbound-Effect n p m cursor db db' own e =
      let (blob, enc, e1) = >>=-eq-ok (encode_profile formats vault n.profile p) _ e in
      let (body, enc', e2) = >>=-eq-ok (encode_message formats vault n.body m) _ e1 in
      let (kept, ins, e3) = >>=-eq-ok (insert_message _ _) _ e2 in
      subst (Effect conversation db) (ok-injective e3) (
        Effect.stored (message_row m body) (set_profile blob db) kept own (refl, refl) ins
          (refl, refl))

  pub commit_unverified_inbound-Effect :
      (n : Nonces) (p : RuntimeProfile) (m : ChatMessage) (note : Notification) (cursor : ℕ)
      (db db' : LocalDb)
      → m.conversation_id ≡ conversation m.peer_account_id
      → commit_unverified_inbound formats vault n p m note cursor db ≡ ok db'
      → Effect conversation db db'
  unfolding commit_unverified_inbound set_envelope_cursor set_profile message_row
  commit_unverified_inbound-Effect n p m note cursor db db' own e =
      let (blob, enc, e1) = >>=-eq-ok (encode_profile formats vault n.profile p) _ e in
      let (body, enc', e2) = >>=-eq-ok (encode_message formats vault n.body m) _ e1 in
      let (payload, enc2, e3) =
        >>=-eq-ok (encode_notification formats vault n.notification note) _ e2 in
      let (kept, ins, e4) = >>=-eq-ok (insert_message _ _) _ e3 in
      let (notified, up, e5) = >>=-eq-ok (upsert_notification _ _ _) _ e4 in
      subst (Effect conversation db) (ok-injective e5) (
        Effect.stored (message_row m body) (set_profile blob db) kept own (refl, refl) ins
          (upsert_notification-SameTables _ _ kept notified up))

  pub commit_conversation_deletion-Effect :
      (n : Nonces) (p : RuntimeProfile) (t : ConversationTombstone) (cursor : ℕ) (db db' : LocalDb)
      → commit_conversation_deletion formats vault n p t cursor db ≡ ok db'
      → Effect conversation db db'
  unfolding commit_conversation_deletion set_envelope_cursor set_profile
  commit_conversation_deletion-Effect n p t cursor db db' e =
      let (blob, enc, e1) = >>=-eq-ok (encode_profile formats vault n.profile p) _ e in
      let (marked, up, e2) = >>=-eq-ok (upsert_conversation_tombstone _ _) _ e1 in
      subst (Effect conversation db) (ok-injective e2)
        (Effect.dropped t.peer_account_id t.conversation_id (tombstone-SameTables _ _ marked up))

  -- What an operation that leaves both tables alone returns.
  pub profile-Effect :
      (n : Nonces) (p : RuntimeProfile) (db db' : LocalDb)
      → save_profile formats vault n p db ≡ ok db'
      → Effect conversation db db'
  unfolding save_profile set_profile
  profile-Effect n p db db' e =
      let (blob, enc, e1) = >>=-eq-ok (encode_profile formats vault n.profile p) _ e in
      subst (Effect conversation db) (ok-injective e1) (Effect.idle (refl, refl))

  pub control_outgoing-Effect :
      (n : Nonces) (p : RuntimeProfile) (id : Text) (frame : Bytes) (now : ℕ) (db db' : LocalDb)
      → commit_control_outgoing formats vault n p id frame now db ≡ ok db'
      → Effect conversation db db'
  unfolding commit_control_outgoing set_profile put_outbox
  control_outgoing-Effect n p id frame now db db' e =
      let (blob, enc, e1) = >>=-eq-ok (encode_profile formats vault n.profile p) _ e in
      subst (Effect conversation db) (ok-injective e1) (Effect.idle (refl, refl))

  pub control-Effect :
      (n : Nonces) (p : RuntimeProfile) (cursor : ℕ) (db db' : LocalDb)
      → commit_control formats vault n p cursor db ≡ ok db'
      → Effect conversation db db'
  unfolding commit_control set_profile set_envelope_cursor
  control-Effect n p cursor db db' e =
      let (blob, enc, e1) = >>=-eq-ok (encode_profile formats vault n.profile p) _ e in
      subst (Effect conversation db) (ok-injective e1) (Effect.idle (refl, refl))

  pub save_message-Effect :
      (nonce : Bytes) (m : ChatMessage) (db db' : LocalDb)
      → m.conversation_id ≡ conversation m.peer_account_id
      → save_message formats vault nonce m db ≡ ok db'
      → Effect conversation db db'
  unfolding save_message message_row
  save_message-Effect nonce m db db' own e =
      let (body, enc, e1) = >>=-eq-ok (encode_message formats vault nonce m) _ e in
      Effect.stored (message_row m body) db db' own (refl, refl) e1 (refl, refl)

  pub import_contacts-Effect :
      (cs : List TransferContact) (db db' : LocalDb)
      → import_contacts codec cs db ≡ ok db'
      → Effect conversation db db'
  unfolding import_contacts
  import_contacts-Effect cs db db' e = Effect.idle (ground (arith, e), ground (arith, e))

  pub upsert_contact-Effect :
      (bundle : UserBundle) (db : LocalDb)
      → Effect conversation db (upsert_contact codec bundle db).0
  unfolding upsert_contact
  upsert_contact-Effect bundle db = Effect.idle (ground arith, ground arith)

  pub save_draft-Effect :
      (nonce : Bytes) (c t : Text) (db db' : LocalDb)
      → save_draft formats vault nonce c t db ≡ ok db'
      → Effect conversation db db'
  unfolding save_draft
  save_draft-Effect nonce c [] db db' e =
      subst (Effect conversation db) (ok-injective e) (Effect.idle (refl, refl))
  save_draft-Effect nonce c (x ∷ t) db db' e = Effect.idle (ground (arith, e), ground (arith, e))

  pub save_notification-Effect :
      (nonce : Bytes) (note : Notification) (db db' : LocalDb)
      → save_notification formats vault nonce note db ≡ ok db'
      → Effect conversation db db'
  unfolding save_notification
  save_notification-Effect nonce note db db' e =
      let (payload, enc, e1) = >>=-eq-ok (encode_notification formats vault nonce note) _ e in
      Effect.idle (upsert_notification-SameTables _ _ db db' e1)
