-- ===== src/Client/Local/Reach/Effects.antt =====
-- Every operation of crates/client/src/local.rs has one of the effects of `Operations` on the
-- tables of messages and summaries.
use tui_chat.Client.Local.Reach.{Step}
use tui_chat.Client.Local.Messages.{update_status, update_outbound_status_for_peer}
use tui_chat.Base.{refl, list_eq, nat_eq, arith}
use tui_chat.Base.Text.{Text}
use tui_chat.Base.Int.{int_eq}
use tui_chat.Client.Local.Rows.{LocalDb}
use tui_chat.Client.Local.Keys.{Formats, VaultSession}
use tui_chat.Client.Local.Notifications.{
  update_notification_state, mark_notification_read, delete_notification,
}
use tui_chat.Client.Local.Sync.{
  remove_outbox, set_cursors, mark_pairing_event_processed, save_ui_preference,
}
use tui_chat.Client.Local.Contacts.{Codec}
use tui_chat.Client.Local.Deletion.{
  delete_conversation_everywhere, mark_conversation_deletion_synced, verify_contact,
}
use tui_chat.Client.Local.Operations.{
  Effect, tombstone-SameTables, commit_outgoing-Effect, commit_inbound-Effect,
  commit_unverified_inbound-Effect, commit_conversation_deletion-Effect, profile-Effect,
  control_outgoing-Effect, control-Effect, save_message-Effect, import_contacts-Effect,
  upsert_contact-Effect, save_draft-Effect, save_notification-Effect,
}

module _ (conversation : Text → Text) (formats : Formats) (vault : VaultSession)
    (codec : Codec) where
  pub Step-Effect :
      {db db' : LocalDb} → Step conversation formats vault codec db db' → Effect conversation db db'
  unfolding update_status update_outbound_status_for_peer delete_conversation_everywhere
      mark_conversation_deletion_synced verify_contact update_notification_state
      mark_notification_read delete_notification remove_outbox set_cursors
      mark_pairing_event_processed save_ui_preference
  Step-Effect (Step.saves_profile n p e) = profile-Effect conversation formats vault codec n p _ _ e
  Step-Effect (Step.sends n p m frame now own e) =
      commit_outgoing-Effect conversation formats vault codec n p m frame now _ _ own e
  Step-Effect (Step.sends_control n p id frame now e) =
      control_outgoing-Effect conversation formats vault codec n p id frame now _ _ e
  Step-Effect (Step.receives n p m cursor own e) =
      commit_inbound-Effect conversation formats vault codec n p m cursor _ _ own e
  Step-Effect (Step.quarantines n p m note cursor own e) =
      commit_unverified_inbound-Effect conversation formats vault codec n p m note cursor _ _ own e
  Step-Effect (Step.receives_control n p cursor e) =
      control-Effect conversation formats vault codec n p cursor _ _ e
  Step-Effect (Step.saves nonce m own e) =
      save_message-Effect conversation formats vault codec nonce m _ _ own e
  Step-Effect (Step.marks id status db) = Effect.set _ status db (λ m h. ground (arith, h))
  Step-Effect (Step.hears id peer status db) = Effect.set _ status db (λ m h. ground (arith, h))
  Step-Effect (Step.deletes t e) =
      Effect.dropped t.peer_account_id t.conversation_id
        (tombstone-SameTables conversation formats vault codec _ _ _ e)
  Step-Effect (Step.syncs_deletion n p t cursor e) =
      commit_conversation_deletion-Effect conversation formats vault codec n p t cursor _ _ e
  Step-Effect (Step.marks_deletion event db) = Effect.idle (refl, refl)
  Step-Effect (Step.verifies account db) = Effect.idle (refl, refl)
  Step-Effect (Step.upserts bundle db) =
      upsert_contact-Effect conversation formats vault codec bundle db
  Step-Effect (Step.imports cs e) = import_contacts-Effect conversation formats vault codec cs _ _ e
  Step-Effect (Step.drafts nonce c t e) =
      save_draft-Effect conversation formats vault codec nonce c t _ _ e
  Step-Effect (Step.notifies nonce note e) =
      save_notification-Effect conversation formats vault codec nonce note _ _ e
  Step-Effect (Step.decides id state read now db) = Effect.idle (refl, refl)
  Step-Effect (Step.reads_notification id now db) = Effect.idle (refl, refl)
  Step-Effect (Step.drops_notification id db) = Effect.idle (refl, refl)
  Step-Effect (Step.completes id db) = Effect.idle (refl, refl)
  Step-Effect (Step.moves envelope status db) = Effect.idle (refl, refl)
  Step-Effect (Step.pairs id db) = Effect.idle (ground arith, ground arith)
  Step-Effect (Step.prefers key value db) = Effect.idle (refl, refl)
