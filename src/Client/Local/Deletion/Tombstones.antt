-- ===== src/Client/Local/Deletion/Tombstones.antt =====
-- A deletion that crates/client/src/local.rs has not told the other devices of is not forgotten.
use tui_chat.Base.{
  ℕ, ◌≡◌, refl, true, false, Option, some, ok, >>=-eq-ok, list_eq, nat_eq, find, arith,
}
use tui_chat.Base.Text.{Text}
use tui_chat.Base.Queries.{find-update_self, any_of_find}
use tui_chat.Client.Local.Rows.{ConversationTombstone, TombstoneRow, LocalDb}
use tui_chat.Client.Local.Keys.{Formats, VaultSession, RuntimeProfile, encode_profile}
use tui_chat.Client.Local.Messages.{max_ℤ}
use tui_chat.Client.Local.Deletion.{
  is_tombstone, merge_tombstone, upsert_conversation_tombstone, delete_conversation_state,
}
use tui_chat.Client.Local.Commit.{Nonces, set_profile, commit_conversation_deletion}
use tui_chat.Client.Local.Sync.{set_envelope_cursor}

abbrev pub tombstone_of : Text → LocalDb → Option TombstoneRow
tombstone_of peer db = find (is_tombstone peer) db.conversation_tombstones

-- A new tombstone is merged with the old one of its peer.
tombstone_of-upsert :
    (new old : TombstoneRow) (db db' : LocalDb)
    → tombstone_of new.tombstone.peer_account_id db ≡ some old
    → upsert_conversation_tombstone new db ≡ ok db'
    → tombstone_of new.tombstone.peer_account_id db' ≡ some (merge_tombstone new old)
unfolding upsert_conversation_tombstone merge_tombstone
tombstone_of-upsert new old db db' h e = ground (
  arith,
  e,
  any_of_find (is_tombstone new.tombstone.peer_account_id) db.conversation_tombstones old h,
  find-update_self (is_tombstone new.tombstone.peer_account_id) (merge_tombstone new)
      db.conversation_tombstones old (λ t. refl) h,
)

-- A deletion that comes from another device leaves one's own that is pending for the same peer:
-- it stays pending under its own event, with the later of the two times.
pub commit_conversation_deletion_pending :
    (formats : Formats) (vault : VaultSession) (n : Nonces) (p : RuntimeProfile)
    (t : ConversationTombstone) (cursor : ℕ) (own : TombstoneRow) (db db' : LocalDb)
    → tombstone_of t.peer_account_id db ≡ some own
    → own.pending_sync ≡ true
    → commit_conversation_deletion formats vault n p t cursor db ≡ ok db'
    → (row : TombstoneRow) × (tombstone_of t.peer_account_id db' ≡ some row)
      × (row.pending_sync ≡ true)
      × (row.tombstone.sync_event_id ≡ own.tombstone.sync_event_id)
      × (row.tombstone.deleted_at_ms ≡ max_ℤ own.tombstone.deleted_at_ms t.deleted_at_ms)
unfolding commit_conversation_deletion set_envelope_cursor set_profile delete_conversation_state
    merge_tombstone
commit_conversation_deletion_pending formats vault n p t cursor own db db' h pending e =
    let (blob, enc, e1) = >>=-eq-ok (encode_profile formats vault n.profile p) _ e in
    let (marked, up, e2) = >>=-eq-ok (upsert_conversation_tombstone _ _) _ e1 in
    let found =
      tombstone_of-upsert (record { tombstone = t; pending_sync = false }) own
        (delete_conversation_state t.peer_account_id t.conversation_id db) marked h up in
    (
      merge_tombstone (record { tombstone = t; pending_sync = false }) own,
      ground (arith, e2, found),
      ground (arith, pending),
      ground (arith, pending),
      refl,
    )
