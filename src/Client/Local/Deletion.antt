-- ===== src/Client/Local/Deletion.antt =====
-- Deleted conversations and their tombstones in crates/client/src/local.rs.
pub mod Tombstones
pub mod Erased
use tui_chat.Base.{
  ℕ, Bool, true, false, not, ◌&&◌, ◌||◌, List, [], ◌∷◌, ◌++◌, map, Result, ok, err, constraint,
  ◌>>=◌, ◌==◌, ◌!=◌, list_eq, nat_eq, any, update, select, delete, sort_by, if◌then◌else◌,
}
use tui_chat.Base.Text.{Bytes, Text, text}
use tui_chat.Base.Int.{ℤ, ltb_ℤ, int_eq}
use tui_chat.Client.Local.Kinds.{chat_request, chat_response, kind_str}
use tui_chat.Client.Local.Rows.{
  ConversationTombstone, TombstoneRow, MessageRow, NotificationRow, LocalDb,
}
use tui_chat.Client.Local.Messages.{max_ℤ}

abbrev pub is_of : Text → MessageRow → Bool
is_of conversation m = m.conversation_id == conversation

-- `kind IN ('chat_request', 'chat_response')`
unfoldable pub is_chat_notification : Text → NotificationRow → Bool
is_chat_notification peer n =
    n.actor_account_id == peer
    && (n.kind == kind_str chat_request || n.kind == kind_str chat_response)

unfoldable pub delete_conversation_state : Text → Text → LocalDb → LocalDb
delete_conversation_state peer conversation db = record db {
  outbox =
      delete
        (λ row.
          any (λ m. m.logical_message_id == row.logical_message_id)
            (select (is_of conversation) db.messages))
        db.outbox;
  messages = delete (is_of conversation) db.messages;
  drafts = delete (λ d. d.conversation_id == conversation) db.drafts;
  conversation_summaries =
      delete (λ s. s.conversation_id == conversation) db.conversation_summaries;
  notifications = delete (is_chat_notification peer) db.notifications;
  contacts = delete (λ c. c.account_id == peer) db.contacts;
}

-- `ON CONFLICT(peer_account_id) DO UPDATE`: what is left of an old tombstone under a new one.
unfoldable pub merge_tombstone : TombstoneRow → TombstoneRow → TombstoneRow
merge_tombstone new old = record {
  tombstone = record {
    peer_account_id = old.tombstone.peer_account_id;
    peer_username =
        if ltb_ℤ new.tombstone.deleted_at_ms old.tombstone.deleted_at_ms
        then old.tombstone.peer_username
        else new.tombstone.peer_username;
    conversation_id =
        if ltb_ℤ new.tombstone.deleted_at_ms old.tombstone.deleted_at_ms
        then old.tombstone.conversation_id
        else new.tombstone.conversation_id;
    sync_event_id =
        if old.pending_sync
        then old.tombstone.sync_event_id
        else if new.pending_sync
        then new.tombstone.sync_event_id
        else if ltb_ℤ new.tombstone.deleted_at_ms old.tombstone.deleted_at_ms
        then old.tombstone.sync_event_id
        else new.tombstone.sync_event_id;
    deleted_at_ms = max_ℤ old.tombstone.deleted_at_ms new.tombstone.deleted_at_ms;
  };
  pending_sync = new.pending_sync || old.pending_sync;
}

abbrev pub is_tombstone : Text → TombstoneRow → Bool
is_tombstone peer t = t.tombstone.peer_account_id == peer

-- `sync_event_id` is unique: a row that would take another's is refused.
unfoldable pub upsert_conversation_tombstone : TombstoneRow → LocalDb → Result LocalDb
unfolding merge_tombstone
upsert_conversation_tombstone new db =
    let rows =
      if any (is_tombstone new.tombstone.peer_account_id) db.conversation_tombstones
      then update (is_tombstone new.tombstone.peer_account_id) (merge_tombstone new)
          db.conversation_tombstones
      else db.conversation_tombstones ++ (new ∷ []) in
    if any
      (λ t.
        is_tombstone new.tombstone.peer_account_id t
        && any
            (λ o.
              not (is_tombstone new.tombstone.peer_account_id o)
              && o.tombstone.sync_event_id == t.tombstone.sync_event_id)
            rows)
      rows
    then err constraint
    else ok (record db { conversation_tombstones = rows })

unfoldable pub delete_conversation_everywhere : ConversationTombstone → LocalDb → Result LocalDb
delete_conversation_everywhere t db =
    upsert_conversation_tombstone (record { tombstone = t; pending_sync = true })
      (delete_conversation_state t.peer_account_id t.conversation_id db)

unfoldable pub pending_conversation_deletions : LocalDb → List ConversationTombstone
pending_conversation_deletions db =
    map (λ t. t.tombstone)
      (sort_by (λ a b. ltb_ℤ a.tombstone.deleted_at_ms b.tombstone.deleted_at_ms)
        (select (λ t. t.pending_sync) db.conversation_tombstones))

unfoldable pub conversation_tombstoned : Text → LocalDb → Bool
conversation_tombstoned peer db = any (is_tombstone peer) db.conversation_tombstones

unfoldable pub mark_conversation_deletion_synced : Text → LocalDb → LocalDb
mark_conversation_deletion_synced event db = record db {
  conversation_tombstones =
      update (λ t. t.tombstone.sync_event_id == event) (λ t. record t { pending_sync = false })
        db.conversation_tombstones;
}

unfoldable pub verify_contact : Text → LocalDb → LocalDb
verify_contact account db = record db {
  contacts =
      update (λ c. c.account_id == account)
        (λ c. record c { verified = true; identity_changed = false }) db.contacts;
  outbox =
      delete
        (λ row.
          any (λ t. t.tombstone.sync_event_id == row.logical_message_id)
            (select (is_tombstone account) db.conversation_tombstones))
        db.outbox;
  conversation_tombstones = delete (is_tombstone account) db.conversation_tombstones;
}
