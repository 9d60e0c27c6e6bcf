-- ===== src/Client/Local/Messages.antt =====
-- Messages and their summaries in crates/client/src/local.rs, with the triggers of
-- crates/client/migrations/0004_status_codes.sql.
pub mod Unread
pub mod Counted
use tui_chat.Base.{
  ℕ, ◌+◌, ◌-◌, ltb, Bool, true, false, not, ◌&&◌, ◌||◌, List, [], ◌∷◌, ◌++◌, Option, none, some,
  Result, ok, err, constraint, ◌>>=◌, ◌==◌, ◌!=◌, list_eq, nat_eq, find, any, update, select,
  delete, if◌then◌else◌, take, sort_by,
}
use tui_chat.Base.Text.{Bytes, Text, text}
use tui_chat.Base.Utf8.{from_utf8}
use tui_chat.Base.Int.{ℤ, ltb_ℤ, int_eq}
use tui_chat.Protocol.Payload.{text_le}
use tui_chat.Client.Local.Kinds.{MessageStatus, status_str, status_rank, try_from}
use tui_chat.Client.Local.Rows.{ChatMessage, MessageRow, SummaryRow, OutboxRow, LocalDb}
use tui_chat.Client.Local.Keys.{Formats, VaultSession, encode_message, unseal_bytes}

-- `inbound = 1 AND status != 'read'`
unfoldable pub is_unread : Bool → Text → Bool
is_unread inbound status = inbound && status != text "read"

abbrev pub max_ℤ : ℤ → ℤ → ℤ
max_ℤ a b = if ltb_ℤ a b then b else a

abbrev pub unread_of_row : Bool → ℕ
unread_of_row unread = if unread then 1 else 0

abbrev pub new_summary : Text → Text → ℤ → Bool → SummaryRow
new_summary conversation peer sent unread = record {
  conversation_id = conversation;
  peer_account_id = peer;
  last_activity_ms = sent;
  unread_count = unread_of_row unread;
}

abbrev pub add_to_summary : Text → ℤ → Bool → SummaryRow → SummaryRow
add_to_summary peer sent unread s = record s {
  peer_account_id = peer;
  last_activity_ms = max_ℤ s.last_activity_ms sent;
  unread_count = s.unread_count + unread_of_row unread;
}

-- The trigger `messages_summary_insert`. A peer has one conversation: an update that would give it
-- two is refused, and a row that would is skipped, since SQLite applies the `OR IGNORE` of the
-- statement to the inserts of its triggers.
unfoldable pub insert_summary : Text → Text → ℤ → Bool → List SummaryRow → Result (List SummaryRow)
insert_summary conversation peer sent unread summaries =
    if any (λ s. s.peer_account_id == peer && s.conversation_id != conversation) summaries
    then (if any (λ s. s.conversation_id == conversation) summaries
        then err constraint
        else ok summaries)
    else if any (λ s. s.conversation_id == conversation) summaries
    then ok (
        update (λ s. s.conversation_id == conversation) (add_to_summary peer sent unread) summaries)
    else ok (summaries ++ (new_summary conversation peer sent unread ∷ []))

-- The trigger `messages_summary_read`; `-` stops at 0 as its `MAX(0, …)` does.
unfoldable pub read_summary : Text → List SummaryRow → List SummaryRow
read_summary conversation =
    update (λ s. s.conversation_id == conversation)
      (λ s. record s { unread_count = s.unread_count - 1 })

-- The trigger for each row of an update that sets `status`.
unfoldable pub read_summaries : Text → List MessageRow → List SummaryRow → List SummaryRow
unfolding is_unread
read_summaries status [] summaries = summaries
read_summaries status (m ∷ ms) summaries = read_summaries status ms (
    if is_unread m.inbound m.status && status == text "read"
    then read_summary m.conversation_id summaries
    else summaries)

-- `INSERT OR IGNORE INTO messages`
unfoldable pub insert_message : MessageRow → LocalDb → Result LocalDb
unfolding insert_summary
insert_message row db =
    if any (λ m. m.logical_message_id == row.logical_message_id) db.messages then ok db else do
      summaries ←
          insert_summary row.conversation_id row.peer_account_id row.sent_at_ms
            (is_unread row.inbound row.status) db.conversation_summaries
      ok (record db { messages = db.messages ++ (row ∷ []); conversation_summaries = summaries })

unfoldable pub message_row : ChatMessage → Bytes → MessageRow
message_row m body = record {
  logical_message_id = m.id;
  conversation_id = m.conversation_id;
  peer_account_id = m.peer_account_id;
  sender_account_id = m.sender_account_id;
  encrypted_body = body;
  sent_at_ms = m.sent_at_ms;
  status = status_str m.status;
  inbound = m.inbound;
  encryption_version = 2;
}

-- `UPDATE messages SET status = ? WHERE p`
unfoldable pub set_status : (MessageRow → Bool) → Text → LocalDb → LocalDb
set_status p status db = record db {
  messages = update p (λ m. record m { status = status }) db.messages;
  conversation_summaries = read_summaries status (select p db.messages) db.conversation_summaries;
}

unfoldable pub update_status : Text → MessageStatus → LocalDb → LocalDb
update_status logical_id status =
    set_status
      (λ m.
        m.logical_message_id == logical_id
        && ltb (status_rank m.status) (status_rank (status_str status)))
      (status_str status)

unfoldable pub update_outbound_status_for_peer : Text → Text → MessageStatus → LocalDb → LocalDb
update_outbound_status_for_peer logical_id peer status =
    set_status
      (λ m.
        m.logical_message_id == logical_id
        && (m.peer_account_id == peer
            && (not m.inbound && ltb (status_rank m.status) (status_rank (status_str status)))))
      (status_str status)

-- `sent_at_ms`, then `logical_message_id`
unfoldable pub before : ℤ → Text → MessageRow → Bool
before sent id m =
    ltb_ℤ m.sent_at_ms sent
    || (m.sent_at_ms == sent && (text_le m.logical_message_id id && m.logical_message_id != id))

unfoldable pub newer_first : MessageRow → MessageRow → Bool
newer_first a b = before a.sent_at_ms a.logical_message_id b

unfoldable pub older_first : MessageRow → MessageRow → Bool
older_first a b = before b.sent_at_ms b.logical_message_id a

abbrev pub message_page_size : ℕ
message_page_size = 100

-- The newest rows that `p` selects, in the order of time.
unfoldable pub page : (MessageRow → Bool) → LocalDb → List MessageRow
page p db =
    sort_by older_first (take message_page_size (sort_by newer_first (select p db.messages)))

module _ (formats : Formats) (vault : VaultSession) where
  unfoldable pub save_message : Bytes → ChatMessage → LocalDb → Result LocalDb
  save_message nonce m db = do
    body ← encode_message formats vault nonce m
    insert_message (message_row m body) db

  unfoldable pub decode_row : MessageRow → Result ChatMessage
  decode_row row = do
    plain ←
        unseal_bytes formats vault (text "message/v1/" ++ row.logical_message_id) row.encrypted_body
    body ← from_utf8 plain
    status ← try_from row.status
    ok (record {
      id = row.logical_message_id;
      conversation_id = row.conversation_id;
      peer_account_id = row.peer_account_id;
      sender_account_id = row.sender_account_id;
      body = body;
      sent_at_ms = row.sent_at_ms;
      status = status;
      inbound = row.inbound;
    })

  unfoldable pub decode_messages : List MessageRow → Result (List ChatMessage)
  unfolding decode_row
  decode_messages [] = ok []
  decode_messages (row ∷ rows) = do m ← decode_row row; ms ← decode_messages rows; ok (m ∷ ms)

  unfoldable pub messages : Text → LocalDb → Result (List ChatMessage)
  messages conversation db = decode_messages (page (λ m. m.conversation_id == conversation) db)

  unfoldable pub messages_before : Text → ℤ → Text → LocalDb → Result (List ChatMessage)
  messages_before conversation sent id db =
      decode_messages (page (λ m. m.conversation_id == conversation && before sent id m) db)

  unfoldable pub export_messages : LocalDb → Result (List ChatMessage)
  export_messages db =
      decode_messages (sort_by (λ a b. ltb_ℤ a.sent_at_ms b.sent_at_ms) db.messages)

  -- Each message is a transaction of its own: those before an error stay.
  unfoldable pub import_messages :
      List (Bytes × ChatMessage) → LocalDb → LocalDb × Result (Unit {0})
  import_messages [] db = (db, ok tt)
  import_messages ((nonce, m) ∷ ms) db = elim (save_message nonce m db) [
    | err error ↦ (db, err error)
    | ok db' ↦ import_messages ms db'
  ]
