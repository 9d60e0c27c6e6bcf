-- ===== src/Client/Local/Sync.antt =====
-- The outbox, the cursors, the drafts, the preferences and the processed pairing events of
-- crates/client/src/local.rs. `now` is the clock.
use tui_chat.Base.{
  ℕ, ◌+◌, ◌-◌, ◌^◌, ltb, Bool, List, [], ◌∷◌, ◌++◌, map, Option, none, some, Result, ok, ◌>>=◌,
  ◌==◌, list_eq, nat_eq, find, any, delete, sort_by, if◌then◌else◌,
}
use tui_chat.Base.Text.{Bytes, Text, text}
use tui_chat.Base.Utf8.{from_utf8}
use tui_chat.Base.Int.{ℤ, pos, negsuc, as_i64, int_eq}
use tui_chat.Base.Maps.{get, insert}
use tui_chat.Client.Local.Rows.{OutboxRow, DraftRow, LocalDb}
use tui_chat.Client.Local.Keys.{Formats, VaultSession, seal_bytes, unseal_bytes}

-- `n as u64` for an `i64`.
unfoldable pub as_u64 : ℤ → ℕ
as_u64 (pos n) = n
as_u64 (negsuc n) = 2 ^ 64 - (n + 1)

abbrev pub is_outgoing : Text → OutboxRow → Bool
is_outgoing id row = row.logical_message_id == id

-- `INSERT OR REPLACE INTO outbox`: the old row goes, and the new one comes last.
unfoldable pub put_outbox : Text → Bytes → ℕ → LocalDb → LocalDb
put_outbox id frame now db = record db {
  outbox =
      delete (is_outgoing id) db.outbox
      ++ (record { logical_message_id = id; encoded_frame = frame; created_at_ms = now } ∷ []);
}

unfoldable pub outbox : LocalDb → List (Text × Bytes)
outbox db =
    map (λ row. (row.logical_message_id, row.encoded_frame))
      (sort_by (λ a b. ltb a.created_at_ms b.created_at_ms) db.outbox)

unfoldable pub outbox_contains : Text → LocalDb → Bool
outbox_contains id db = any (is_outgoing id) db.outbox

unfoldable pub remove_outbox : Text → LocalDb → LocalDb
remove_outbox id db = record db { outbox = delete (is_outgoing id) db.outbox }

unfoldable pub cursors : LocalDb → ℕ × ℕ
cursors db = (as_u64 db.envelope_cursor, as_u64 db.status_cursor)

unfoldable pub set_cursors : ℕ → ℕ → LocalDb → LocalDb
set_cursors envelope status db = record db {
  envelope_cursor = as_i64 envelope;
  status_cursor = as_i64 status;
}

unfoldable pub set_envelope_cursor : ℕ → LocalDb → LocalDb
set_envelope_cursor cursor db = record db { envelope_cursor = as_i64 cursor }

unfoldable pub pairing_event_processed : ℕ → LocalDb → Bool
pairing_event_processed id db = any (λ k. k == as_i64 id) db.processed_pairing_events

-- `INSERT OR IGNORE`
unfoldable pub mark_pairing_event_processed : ℕ → LocalDb → LocalDb
mark_pairing_event_processed id db =
    if any (λ k. k == as_i64 id) db.processed_pairing_events
    then db
    else record db { processed_pairing_events = db.processed_pairing_events ++ (as_i64 id ∷ []) }

unfoldable pub ui_preference : Text → LocalDb → Option Text
ui_preference key db = get key db.ui_preferences

unfoldable pub save_ui_preference : Text → Text → LocalDb → LocalDb
save_ui_preference key value db = record db { ui_preferences = insert key value db.ui_preferences }

abbrev pub is_draft : Text → DraftRow → Bool
is_draft conversation row = row.conversation_id == conversation

module _ (formats : Formats) (vault : VaultSession) where
  -- The upsert writes the one row of the conversation.
  unfoldable pub save_draft : Bytes → Text → Text → LocalDb → Result LocalDb
  save_draft nonce conversation [] db =
      ok (record db { drafts = delete (is_draft conversation) db.drafts })
  save_draft nonce conversation (c ∷ cs) db = do
    body ← seal_bytes formats vault nonce (text "draft/v2/" ++ conversation) (c ∷ cs)
    ok (record db {
      drafts =
          delete (is_draft conversation) db.drafts
          ++ (record { conversation_id = conversation; encrypted_body = body } ∷ []);
    })

  unfoldable pub load_draft : Text → LocalDb → Result Text
  load_draft conversation db = elim (find (is_draft conversation) db.drafts) [
    | none ↦ ok []
    | some row ↦ do
      plain ← unseal_bytes formats vault (text "draft/v2/" ++ conversation) row.encrypted_body
      from_utf8 plain
  ]
