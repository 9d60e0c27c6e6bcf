-- ===== src/Client/Local/Messages/Counted.antt =====
-- The summaries of crates/client/src/local.rs count the unread messages exactly, under every
-- change of the message table.
use tui_chat.Base.{
  ◌+◌, ◌≡◌, refl, sym, ap, ◌∙◌, subst, inl, inr, ltb, Bool, true, false, ◌&&◌, List, [], ◌∷◌, ◌++◌,
  ok, ok-injective, ◌==◌, ◌!=◌, ==_sound, list_eq, nat_eq, any, update, select, delete,
  if◌then◌else◌, arith, All, Bool-cases,
}
use tui_chat.Base.Text.{Text, text}
use tui_chat.Base.Int.{ℤ, int_eq}
use tui_chat.Client.Local.Kinds.{
  MessageStatus, sending, sent, delivered, read, status_str, status_rank,
}
use tui_chat.Client.Local.Rows.{MessageRow, SummaryRow, LocalDb}
use tui_chat.Client.Local.Messages.{
  is_unread, unread_of_row, new_summary, add_to_summary, insert_summary, insert_message, set_status,
  read_summary, read_summaries,
}
use tui_chat.Client.Local.Messages.Unread.{
  unread_of, unread_in, has_summary, unread_of-update, unread_of-append, unread_of-missing,
  unread_in-append, unread_of-read_summaries, read_summaries-other, unread_in-update_read,
  unread_in-update_other, unread_of-delete, unread_in-delete,
}
use tui_chat.Client.Local.Deletion.{delete_conversation_state}

rank_read_not :
    (new : MessageStatus)
    → ltb (status_rank (text "read")) (status_rank (status_str new)) ≡ true
    → ⊥
unfolding status_rank status_str text list_eq nat_eq
rank_read_not sending h = cc
rank_read_not sent h = cc
rank_read_not delivered h = cc
rank_read_not read h = cc

pub rank_read :
    (old : Text) (new : MessageStatus)
    → ltb (status_rank old) (status_rank (status_str new)) ≡ true
    → (old == text "read") ≡ false
rank_read old new h = elim (Bool-cases (old == text "read")) [
  | inr other ↦ other
  | inl reads ↦ absurd (
      rank_read_not new (
        subst (λ (t : Text). ltb (status_rank t) (status_rank (status_str new)) ≡ true)
          (==_sound old (text "read") reads) h))
]

-- `conversation` gives the conversation of a peer, as `conversation_id` with one's own account
-- does.
module _ (conversation : Text → Text) where
  abbrev pub IsPaired : SummaryRow → Type 0
  IsPaired s = s.conversation_id ≡ conversation s.peer_account_id

  pub record IsCounted (db : LocalDb) : Type 0 where
    pub exact : (c : Text) → unread_of c db.conversation_summaries ≡ unread_in c db.messages
    pub paired : All IsPaired db.conversation_summaries

  no_other :
      (peer : Text) (ss : List SummaryRow)
      → All IsPaired ss
      → any (λ s. s.peer_account_id == peer && s.conversation_id != conversation peer) ss ≡ false
  unfolding any
  no_other peer [] h = refl
  no_other peer (s ∷ ss) h = ground (arith, h.0, no_other peer ss h.1)

  IsPaired-update :
      (peer : Text) (f : SummaryRow → SummaryRow) (ss : List SummaryRow)
      → ((s : SummaryRow) → (f s).conversation_id ≡ s.conversation_id)
      → ((s : SummaryRow) → (f s).peer_account_id ≡ peer)
      → All IsPaired ss
      → All IsPaired (update (has_summary (conversation peer)) f ss)
  unfolding update
  IsPaired-update peer f [] keeps sets h = tt
  IsPaired-update peer f (s ∷ ss) keeps sets h =
      ground (arith, keeps s, sets s, h.0, IsPaired-update peer f ss keeps sets h.1)

  IsPaired-append :
      (ss : List SummaryRow) (s : SummaryRow)
      → All IsPaired ss
      → IsPaired s
      → All IsPaired (ss ++ (s ∷ []))
  IsPaired-append [] s h k = (k, tt)
  IsPaired-append (t ∷ ss) s h k = (h.0, IsPaired-append ss s h.1 k)

  -- The insert trigger succeeds and adds the new message.
  insert_summary-adds :
      (peer : Text) (sent : ℤ) (unread : Bool) (ss : List SummaryRow)
      → All IsPaired ss
      → (ss' : List SummaryRow) × (insert_summary (conversation peer) peer sent unread ss ≡ ok ss')
        × All IsPaired ss'
        × ((c : Text)
            → unread_of c ss'
              ≡ unread_of c ss + (if conversation peer == c then unread_of_row unread else 0))
  unfolding insert_summary
  insert_summary-adds peer at unread ss h =
      elim (Bool-cases (any (has_summary (conversation peer)) ss)) [
        | inl old ↦ (
          update (has_summary (conversation peer)) (add_to_summary peer at unread) ss,
          rw (no_other peer ss h, old) refl,
          IsPaired-update peer (add_to_summary peer at unread) ss (λ s. refl) (λ s. refl) h,
          λ c. ground (
            arith,
            unread_of-update c (conversation peer) (add_to_summary peer at unread)
                (λ n. n + unread_of_row unread) ss (λ s. refl) (λ s. refl) old,
          ),
        )
        | inr new ↦ (
          ss ++ (new_summary (conversation peer) peer at unread ∷ []),
          rw (no_other peer ss h, new) refl,
          IsPaired-append ss (new_summary (conversation peer) peer at unread) h refl,
          λ c. ground (
            arith,
            unread_of-append c ss (new_summary (conversation peer) peer at unread) new,
            unread_of-missing (conversation peer) ss new,
          ),
        )
      ]

  -- Storing a message of a peer's conversation succeeds, whether it is new or not, and keeps the
  -- counts exact.
  pub insert_message-IsCounted :
      (row : MessageRow) (db : LocalDb)
      → row.conversation_id ≡ conversation row.peer_account_id
      → IsCounted db
      → (db' : LocalDb) × (insert_message row db ≡ ok db') × IsCounted db'
  unfolding insert_message
  insert_message-IsCounted row db own v =
      elim (Bool-cases (any (λ m. m.logical_message_id == row.logical_message_id) db.messages)) [
        | inl old ↦ (db, rw old refl, v)
        | inr new ↦
            let (ss, stored, paired, adds) =
              insert_summary-adds row.peer_account_id row.sent_at_ms
                (is_unread row.inbound row.status) db.conversation_summaries v.paired in
            (
              record db { messages = db.messages ++ (row ∷ []); conversation_summaries = ss },
              rw (new, own, stored) refl,
              record {
                exact =
                    λ c. ground (arith, adds c, v.exact c, own, unread_in-append c db.messages row);
                paired = paired;
              },
            )
      ]

  IsPaired-read_summary :
      (k : Text) (ss : List SummaryRow) → All IsPaired ss → All IsPaired (read_summary k ss)
  unfolding read_summary update
  IsPaired-read_summary k [] h = tt
  IsPaired-read_summary k (s ∷ ss) h = ground (arith, h.0, IsPaired-read_summary k ss h.1)

  IsPaired-read_summaries :
      (status : Text) (ms : List MessageRow) (ss : List SummaryRow)
      → All IsPaired ss
      → All IsPaired (read_summaries status ms ss)
  unfolding read_summaries
  IsPaired-read_summaries status [] ss h = h
  IsPaired-read_summaries status (m ∷ ms) ss h =
      elim (Bool-cases (is_unread m.inbound m.status && status == text "read")) [
        | inl reads ↦ rw reads (
            IsPaired-read_summaries status ms (read_summary m.conversation_id ss)
              (IsPaired-read_summary m.conversation_id ss h))
        | inr other ↦ rw other (IsPaired-read_summaries status ms ss h)
      ]

  IsPaired-delete :
      (c : Text) (ss : List SummaryRow) → All IsPaired ss → All IsPaired (delete (has_summary c) ss)
  unfolding delete select
  IsPaired-delete c [] h = tt
  IsPaired-delete c (s ∷ ss) h = ground (arith, h.0, IsPaired-delete c ss h.1)

  set_status-exact :
      (p : MessageRow → Bool) (status c : Text) (ms : List MessageRow) (ss : List SummaryRow)
      → ((m : MessageRow) → p m ≡ true → (m.status == text "read") ≡ false)
      → unread_of c ss ≡ unread_in c ms
      → unread_of c (read_summaries status (select p ms) ss)
        ≡ unread_in c (update p (λ m. record m { status = status }) ms)
  set_status-exact p status c ms ss guard v = elim (Bool-cases (status == text "read")) [
    | inl reads ↦
        subst
          (λ (t : Text).
            unread_of c (read_summaries t (select p ms) ss)
            ≡ unread_in c (update p (λ m. record m { status = t }) ms))
          (sym (==_sound status (text "read") reads))
          (omega
            (arith, unread_of-read_summaries c (select p ms) ss, unread_in-update_read c p ms, v))
    | inr other ↦
        rw (read_summaries-other status (select p ms) ss other)
          (v ∙ sym (unread_in-update_other c status p ms other guard))
  ]

  pub set_status-IsCounted :
      (p : MessageRow → Bool) (status : Text) (db : LocalDb)
      → ((m : MessageRow) → p m ≡ true → (m.status == text "read") ≡ false)
      → IsCounted db
      → IsCounted (set_status p status db)
  unfolding set_status
  set_status-IsCounted p status db guard v = record {
    exact =
        λ c. set_status-exact p status c db.messages db.conversation_summaries guard (v.exact c);
    paired =
        IsPaired-read_summaries status (select p db.messages) db.conversation_summaries v.paired;
  }

  -- Deleting a conversation keeps the counts of all others, and leaves none of its own.
  pub delete_conversation_state-IsCounted :
      (peer c : Text) (db : LocalDb)
      → IsCounted db
      → IsCounted (delete_conversation_state peer c db)
  unfolding delete_conversation_state
  delete_conversation_state-IsCounted peer c db v = record {
    exact = λ k. ground (
      arith,
      v.exact k,
      unread_of-delete k c db.conversation_summaries,
      unread_in-delete k c db.messages,
    );
    paired = IsPaired-delete c db.conversation_summaries v.paired;
  }

  -- What leaves both tables alone keeps the counts.
  pub same-IsCounted :
      (db db' : LocalDb)
      → db'.messages ≡ db.messages
      → db'.conversation_summaries ≡ db.conversation_summaries
      → IsCounted db
      → IsCounted db'
  same-IsCounted db db' ms ss v = record {
    exact = λ c. ap (unread_of c) ss ∙ (v.exact c ∙ sym (ap (unread_in c) ms));
    paired = subst (All IsPaired) (sym ss) v.paired;
  }

  pub inserted-IsCounted :
      (row : MessageRow) (db db' : LocalDb)
      → row.conversation_id ≡ conversation row.peer_account_id
      → insert_message row db ≡ ok db'
      → IsCounted db
      → IsCounted db'
  inserted-IsCounted row db db' own e v =
      let (x, stored, w) = insert_message-IsCounted row db own v in
      subst IsCounted (ok-injective (sym stored ∙ e)) w
