-- ===== src/Server/Db/Delivery.antt =====
-- Delivery of stored envelopes in crates/server/src/db.rs: `stored_envelope`, `sync` and `ack`.
pub mod Acknowledge
pub mod Paging
pub mod Reach
use tui_chat.Base.{
  ℕ, suc, ◌+◌, ltb, Bool, ◌&&◌, List, [], ◌∷◌, map, ◌++◌, Option, none, some, if◌then◌else◌, ◌==◌,
  list_eq, nat_eq, length, find, select, any, update, unwrap_or, map_option, take, first,
}
use tui_chat.Base.Text.{Text}
use tui_chat.Base.Int.{pos, ltb_ℤ, as_i64, int_eq}
use tui_chat.Protocol.Messages.{StoredEnvelope, StoredDeliveryUpdate}
use tui_chat.Server.Db.Rows.{Account, EnvelopeRow, Db}

-- `JOIN accounts a ON a.id = e.sender_account_id`, and `stored_envelope_from_row`.
unfoldable pub stored_row : List Account → EnvelopeRow → Option StoredEnvelope
stored_row accounts row =
    map_option
      (λ a. record {
        cursor = row.cursor;
        sender_account_id = row.sender_account_id;
        sender_device_id = row.sender_device_id;
        envelope = row.envelope;
        accepted_at_ms = row.accepted_at_ms;
        sender_username = a.username;
      })
      (find (λ a. a.id == row.sender_account_id) accounts)

unfoldable pub joined : List Account → List EnvelopeRow → List StoredEnvelope
joined accounts [] = []
joined accounts (row ∷ rows) = elim (stored_row accounts row) [
  | none ↦ joined accounts rows
  | some s ↦ s ∷ joined accounts rows
]

unfoldable pub stored_envelope : Db → Text → Option StoredEnvelope
stored_envelope db id =
    first (joined db.accounts (select (λ row. row.envelope.envelope_id == id) db.envelopes))

-- `recipient_device_id = ? AND cursor > ?`
unfoldable pub is_queued : Text → ℕ → EnvelopeRow → Bool
is_queued device after row =
    row.envelope.recipient_device_id == device && ltb_ℤ (as_i64 after) (pos row.cursor)

-- `limit.clamp(1, 200)`
unfoldable pub clamp : ℕ → ℕ → ℕ → ℕ
clamp lo hi n = if ltb n lo then lo else if ltb hi n then hi else n

-- The rows of the first query, in the order of their cursors.
unfoldable pub queued : Db → Text → ℕ → List StoredEnvelope
queued db device after = joined db.accounts (select (is_queued device after) db.envelopes)

unfoldable pub status_updates : Db → Text → ℕ → List StoredDeliveryUpdate
status_updates db account status_after = take 200 (
    map (λ row. record { cursor = row.cursor; update = row.update })
      (select (λ row. row.account_id == account && ltb_ℤ (as_i64 status_after) (pos row.cursor))
        db.delivery_updates))

pub record SyncResult : Type 0 where
  pub envelopes : List StoredEnvelope
  pub statuses : List StoredDeliveryUpdate
  pub has_more : Bool

unfoldable pub sync : Db → Text → Text → ℕ → ℕ → ℕ → SyncResult
sync db account device after status_after limit = record {
  envelopes = take n rows;
  statuses = status_updates db account status_after;
  has_more = ltb n (length rows);
}
  where
    n : ℕ
    n = clamp 1 200 limit

    rows : List StoredEnvelope
    rows = take (n + 1) (queued db device after)

-- `COALESCE(delivered_at_ms, ?)`
abbrev pub coalesce : Option ℕ → ℕ → Option ℕ
coalesce old now = some (unwrap_or old now)

abbrev pub is_addressed : Text → Text → EnvelopeRow → Bool
is_addressed device id row =
    row.envelope.envelope_id == id && row.envelope.recipient_device_id == device

-- `INSERT OR IGNORE INTO delivery_updates`, unique in the account and the logical message. The
-- AUTOINCREMENT key is used up when the row is ignored too.
unfoldable pub insert_update : Db → Text → Text → ℕ → Db
insert_update db account logical now =
    if any (λ row. row.account_id == account && row.update.logical_message_id == logical)
      db.delivery_updates
    then record db { update_seq = suc db.update_seq }
    else record db {
      delivery_updates =
          db.delivery_updates
          ++ (record {
            cursor = suc db.update_seq;
            account_id = account;
            update = record { logical_message_id = logical; delivered_at_ms = now };
          }
              ∷ []);
      update_seq = suc db.update_seq;
    }

-- The three statements of `ack` behind the row that the first of them returns.
unfoldable pub ack_row : Db → Text → Text → ℕ → EnvelopeRow → Db
ack_row db device id now row =
    insert_update
      (record db {
        envelopes =
            update (is_addressed device id)
              (λ r. record r { delivered_at_ms = coalesce r.delivered_at_ms now }) db.envelopes;
        logical_messages =
            update (λ m. m.logical_message_id == row.envelope.logical_message_id)
              (λ m. record m { delivered_at_ms = coalesce m.delivered_at_ms now })
              db.logical_messages;
      })
      row.sender_account_id row.envelope.logical_message_id now

-- The sender account and the logical message, if the envelope is one of the device's.
unfoldable pub ack : Db → Text → Text → ℕ → Db × Option (Text × Text)
ack db device id now = elim (find (is_addressed device id) db.envelopes) [
  | none ↦ (db, none)
  | some row ↦
      (ack_row db device id now row, some (row.sender_account_id, row.envelope.logical_message_id))
]
