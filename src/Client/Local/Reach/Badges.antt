-- ===== src/Client/Local/Reach/Badges.antt =====
-- After every history of crates/client/src/local.rs the counts of unread messages are exact.
use tui_chat.Client.Local.Kinds.{status_str}
use tui_chat.Client.Local.Messages.Counted.{
  inserted-IsCounted, IsCounted, delete_conversation_state-IsCounted, same-IsCounted,
  set_status-IsCounted, rank_read,
}
use tui_chat.Base.{list_eq, nat_eq}
use tui_chat.Base.Text.{Text}
use tui_chat.Base.Int.{int_eq}
use tui_chat.Client.Local.Rows.{LocalDb}
use tui_chat.Client.Local.Keys.{Formats, VaultSession}
use tui_chat.Client.Local.Contacts.{Codec}
use tui_chat.Client.Local.Reach.{Reach}
use tui_chat.Client.Local.Operations.{Effect}
use tui_chat.Client.Local.Reach.Effects.{Step-Effect}

Effect-IsCounted :
    (conversation : Text → Text) {a b : LocalDb}
    → Effect conversation a b
    → IsCounted conversation a
    → IsCounted conversation b
Effect-IsCounted conversation (Effect.idle same) v = same-IsCounted conversation _ _ same.0 same.1 v
Effect-IsCounted conversation (Effect.stored row b c own ab ins cd) v =
    same-IsCounted conversation _ _ cd.0 cd.1 (
      inserted-IsCounted conversation row _ _ own ins (same-IsCounted conversation _ _ ab.0 ab.1 v))
Effect-IsCounted conversation (Effect.set p status a guard) v =
    set_status-IsCounted conversation p (status_str status) a
      (λ m h. rank_read m.status status (guard m h)) v
Effect-IsCounted conversation (Effect.dropped peer c same) v =
    same-IsCounted conversation _ _ same.0 same.1
      (delete_conversation_state-IsCounted conversation peer c _ v)

module _ (conversation : Text → Text) (formats : Formats) (vault : VaultSession)
    (codec : Codec) where
  -- After any history of operations in which every message is given the conversation of its peer,
  -- the unread count of each conversation is the number of its inbound messages that are not read,
  -- if that was so before, with each summary on the conversation of its peer.
  pub Reach-IsCounted :
      {db db' : LocalDb}
      → Reach conversation formats vault codec db db'
      → IsCounted conversation db
      → IsCounted conversation db'
  Reach-IsCounted Reach.here v = v
  Reach-IsCounted (Reach.next r s) v =
      Effect-IsCounted conversation (Step-Effect conversation formats vault codec s)
        (Reach-IsCounted r v)
