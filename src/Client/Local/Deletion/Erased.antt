-- ===== src/Client/Local/Deletion/Erased.antt =====
-- What `delete_conversation_everywhere` of crates/client/src/local.rs leaves.
use tui_chat.Base.{
  ◌&&◌, ◌≡◌, refl, ap, ◌∙◌, inl, inr, Bool, true, false, List, [], ◌∷◌, ok, ◌==◌, ==_refl, list_eq,
  nat_eq, any, arith, Bool-cases, select, delete,
}
use tui_chat.Base.Text.{Text}
use tui_chat.Base.Queries.{
  delete-none, any-delete_self, any-append, any-update_made, any-map, any-sort_by, any-select,
}
use tui_chat.Client.Local.Rows.{ConversationTombstone, TombstoneRow, LocalDb, OutboxRow, MessageRow}
use tui_chat.Client.Local.Deletion.{
  is_of, is_chat_notification, is_tombstone, merge_tombstone, upsert_conversation_tombstone,
  delete_conversation_state, delete_conversation_everywhere, pending_conversation_deletions,
}

-- The message that waits in the outbox is one of these.
abbrev pub is_among : List MessageRow → OutboxRow → Bool
is_among rows row = any (λ m. m.logical_message_id == row.logical_message_id) rows

abbrev pub is_deletion_of : Text → ConversationTombstone → Bool
is_deletion_of peer t = t.peer_account_id == peer

-- Nothing of the conversation is stored, nor any request of its peer, and no message that it held
-- in `before` waits to be sent; the other messages are as they were, and the deletion is among
-- those that the other devices are still to be told of.
pub record IsErased (before : LocalDb) (peer conversation : Text) (db : LocalDb) : Type 0 where
  pub messages : any (is_of conversation) db.messages ≡ false
  pub drafts : any (λ d. d.conversation_id == conversation) db.drafts ≡ false
  pub summaries : any (λ s. s.conversation_id == conversation) db.conversation_summaries ≡ false
  pub requests : any (is_chat_notification peer) db.notifications ≡ false
  pub contact : any (λ c. c.account_id == peer) db.contacts ≡ false
  pub unsent : any (is_among (select (is_of conversation) before.messages)) db.outbox ≡ false
  pub others : delete (is_of conversation) db.messages ≡ delete (is_of conversation) before.messages
  pub untold : any (is_deletion_of peer) (pending_conversation_deletions db) ≡ true

-- A row of the peer that is still to be told.
abbrev is_untold : Text → TombstoneRow → Bool
is_untold peer t = t.pending_sync && is_tombstone peer t

other_tables :
    (t : TombstoneRow) (a b : LocalDb)
    → upsert_conversation_tombstone t a ≡ ok b
    → b ≡ record a { conversation_tombstones = b.conversation_tombstones }
unfolding upsert_conversation_tombstone
other_tables t a b e = ground (arith, e)

any_self :
    (t : TombstoneRow)
    → t.pending_sync ≡ true
    → any (is_untold t.tombstone.peer_account_id) (t ∷ []) ≡ true
unfolding any
any_self t p = ground (arith, p, ==_refl t.tombstone.peer_account_id)

upsert-untold :
    (t : TombstoneRow) (a b : LocalDb)
    → t.pending_sync ≡ true
    → upsert_conversation_tombstone t a ≡ ok b
    → any (is_untold t.tombstone.peer_account_id) b.conversation_tombstones ≡ true
unfolding upsert_conversation_tombstone merge_tombstone
upsert-untold t a b p e =
    let peer = t.tombstone.peer_account_id in
    elim (Bool-cases (any (is_tombstone peer) a.conversation_tombstones)) [
      | inl old ↦ ground (
        arith,
        e,
        old,
        any-update_made (is_untold peer) (is_tombstone peer) (merge_tombstone t)
            a.conversation_tombstones (λ o same. rw (p, same) refl),
      )
      | inr new ↦ ground (
        arith,
        e,
        new,
        any-append (is_untold peer) a.conversation_tombstones (t ∷ []),
        any_self t p,
      )
    ]

untold-pending :
    (peer : Text) (db : LocalDb)
    → any (is_untold peer) db.conversation_tombstones ≡ true
    → any (is_deletion_of peer) (pending_conversation_deletions db) ≡ true
unfolding pending_conversation_deletions
untold-pending peer db h = rw (any-map, any-sort_by, any-select) h

-- A conversation that is deleted everywhere is erased here: its messages, draft, summary, requests
-- and contact, and what it had in the outbox. No message of another conversation is touched, and
-- the deletion is among those that the other devices are still to be told of.
pub delete_conversation_everywhere-IsErased :
    (t : ConversationTombstone) (before db : LocalDb)
    → delete_conversation_everywhere t before ≡ ok db
    → IsErased before t.peer_account_id t.conversation_id db
unfolding delete_conversation_everywhere delete_conversation_state
delete_conversation_everywhere-IsErased t before db e =
    let same = other_tables (record { tombstone = t; pending_sync = true }) _ db e in
    record {
      messages =
          ap (λ (d : LocalDb). any (is_of t.conversation_id) d.messages) same
          ∙ any-delete_self (is_of t.conversation_id) before.messages;
      drafts =
          ap (λ (d : LocalDb). any (λ r. r.conversation_id == t.conversation_id) d.drafts) same
          ∙ any-delete_self (λ r. r.conversation_id == t.conversation_id) before.drafts;
      summaries =
          ap
            (λ (d : LocalDb).
              any (λ r. r.conversation_id == t.conversation_id) d.conversation_summaries)
            same
          ∙ any-delete_self (λ r. r.conversation_id == t.conversation_id)
              before.conversation_summaries;
      requests =
          ap (λ (d : LocalDb). any (is_chat_notification t.peer_account_id) d.notifications) same
          ∙ any-delete_self (is_chat_notification t.peer_account_id) before.notifications;
      contact =
          ap (λ (d : LocalDb). any (λ r. r.account_id == t.peer_account_id) d.contacts) same
          ∙ any-delete_self (λ r. r.account_id == t.peer_account_id) before.contacts;
      unsent =
          ap
            (λ (d : LocalDb).
              any (is_among (select (is_of t.conversation_id) before.messages)) d.outbox)
            same
          ∙ any-delete_self (is_among (select (is_of t.conversation_id) before.messages))
              before.outbox;
      others =
          ap (λ (d : LocalDb). delete (is_of t.conversation_id) d.messages) same
          ∙ delete-none (is_of t.conversation_id) _
              (any-delete_self (is_of t.conversation_id) before.messages);
      untold =
          untold-pending t.peer_account_id db
            (upsert-untold (record { tombstone = t; pending_sync = true }) _ db refl e);
    }
