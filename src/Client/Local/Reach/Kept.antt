-- ===== src/Client/Local/Reach/Kept.antt =====
-- What an operation of crates/client/src/local.rs may do to a message that is stored.
use tui_chat.Base.{
  ◌≡◌, ◌≤◌, refl, sym, ap, ◌∙◌, subst, inl, inr, ltb, ltb→lt, Bool, true, false, some, ◌⊎◌,
  Bool-cases, ◌==◌, ==_sound, find, any, arith, list_eq, nat_eq, ok, [], ◌∷◌,
}
use tui_chat.Base.Text.{Text}
use tui_chat.Base.Queries.{find-update, find-append_found}
use tui_chat.Base.Keyed.{find-delete_kept}
use tui_chat.Client.Local.Kinds.{MessageStatus, status_str, status_rank}
use tui_chat.Client.Local.Rows.{MessageRow, LocalDb}
use tui_chat.Client.Local.Keys.{Formats, VaultSession}
use tui_chat.Client.Local.Contacts.{Codec}
use tui_chat.Client.Local.Messages.{insert_message, set_status}
use tui_chat.Client.Local.Deletion.{is_of, delete_conversation_state}
use tui_chat.Client.Local.Operations.{Effect, SameTables}
use tui_chat.Client.Local.Reach.{Step}
use tui_chat.Client.Local.Reach.Effects.{Step-Effect}

abbrev has_id : Text → MessageRow → Bool
has_id id m = m.logical_message_id == id

-- The row is there, as it was but for a status that has not fallen.
abbrev pub Keeps : Text → MessageRow → LocalDb → Type 0
Keeps id m db =
    (m' : MessageRow) × (find (has_id id) db.messages ≡ some m')
    × (status_rank m.status ≤ status_rank m'.status)
    × (m' ≡ record m { status = m'.status })

insert_message-find :
    (id : Text) (m row : MessageRow) (a b : LocalDb)
    → insert_message row a ≡ ok b
    → find (has_id id) a.messages ≡ some m
    → find (has_id id) b.messages ≡ some m
unfolding insert_message
insert_message-find id m row a b e h =
    elim (Bool-cases (any (λ x. x.logical_message_id == row.logical_message_id) a.messages)) [
      | inl old ↦ ground (arith, e, h)
      | inr new ↦ ground (arith, e, h, find-append_found (has_id id) a.messages (row ∷ []) m h)
    ]

set_status-Keeps :
    (id : Text) (m : MessageRow) (p : MessageRow → Bool) (status : MessageStatus) (a : LocalDb)
    → ((x : MessageRow)
        → p x ≡ true
        → ltb (status_rank x.status) (status_rank (status_str status)) ≡ true)
    → find (has_id id) a.messages ≡ some m
    → Keeps id m (set_status p (status_str status) a)
unfolding set_status
set_status-Keeps id m p status a guard h =
    let found =
      find-update (has_id id) p (λ x. record x { status = status_str status }) a.messages m
        (λ x. refl) h in
    elim (Bool-cases (p m)) [
      | inl yes_ ↦ (
        record m { status = status_str status },
        ground (arith, found),
        omega (arith, ltb→lt _ _ (guard m yes_)),
        refl,
      )
      | inr no_ ↦ (m, ground (arith, found), omega arith, refl)
    ]

delete_conversation_state-find :
    (id : Text) (m : MessageRow) (peer c : Text) (a : LocalDb)
    → find (has_id id) a.messages ≡ some m
    → (m.conversation_id == c) ≡ false
    → find (has_id id) (delete_conversation_state peer c a).messages ≡ some m
unfolding delete_conversation_state
delete_conversation_state-find id m peer c a h other =
    find-delete_kept (has_id id) (is_of c) a.messages m h other

Effect-Keeps :
    (conversation : Text → Text) {a b : LocalDb} (id : Text) (m : MessageRow)
    → Effect conversation a b
    → find (has_id id) a.messages ≡ some m
    → Keeps id m b
      ⊎ ((peer : Text) × SameTables (delete_conversation_state peer m.conversation_id a) b)
Effect-Keeps conversation id m (Effect.idle same) h =
    inl (m, ap (find (has_id id)) same.0 ∙ h, omega arith, refl)
Effect-Keeps conversation id m (Effect.stored row b c own ab ins cd) h = inl (
  m,
  ap (find (has_id id)) cd.0
      ∙ insert_message-find id m row b c ins (ap (find (has_id id)) ab.0 ∙ h),
  omega arith,
  refl,
)
Effect-Keeps conversation id m (Effect.set p status a guard) h =
    inl (set_status-Keeps id m p status a guard h)
Effect-Keeps conversation {a} {b} id m (Effect.dropped peer c same) h =
    elim (Bool-cases (m.conversation_id == c)) [
      | inl own ↦ inr (
        peer,
        subst (λ (k : Text). SameTables (delete_conversation_state peer k a) b)
            (sym (==_sound m.conversation_id c own)) same,
      )
      | inr other ↦ inl (
        m,
        ap (find (has_id id)) same.0 ∙ delete_conversation_state-find id m peer c _ h other,
        omega arith,
        refl,
      )
    ]

-- An operation leaves a stored message as it is, sender, time and body, but for its status, which
-- may only rise, unless it deletes the conversation of the message.
pub Step-Keeps :
    (conversation : Text → Text) (formats : Formats) (vault : VaultSession) (codec : Codec)
    {a b : LocalDb} (id : Text) (m : MessageRow)
    → Step conversation formats vault codec a b
    → find (has_id id) a.messages ≡ some m
    → Keeps id m b
      ⊎ ((peer : Text) × SameTables (delete_conversation_state peer m.conversation_id a) b)
Step-Keeps conversation formats vault codec id m step h =
    Effect-Keeps conversation id m (Step-Effect conversation formats vault codec step) h
