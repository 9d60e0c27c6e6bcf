-- ===== src/Server/Db/Delivery/Acknowledge.antt =====
-- Acknowledgements in crates/server/src/db.rs: what `ack` records and what it answers.
use tui_chat.Base.{
  ℕ, suc, ◌≡◌, ==_sound, subst, if◌then◌else◌, refl, sym, ap, ◌∙◌, inl, inr, Bool, true, false,
  ◌&&◌, List, [], ◌∷◌, Option, none, some, ◌==◌, list_eq, nat_eq, find, any, update, is_some, arith,
  Bool-cases, Option-cases,
}
use tui_chat.Base.Text.{Text}
use tui_chat.Base.Int.{int_eq}
use tui_chat.Base.Order.{Increasing-append, Increasing-update, Increasing-upper}
use tui_chat.Base.Queries.{
  any-append, sum_of-update, find-update_self, update_again, any-find, find-none_of_any,
}
use tui_chat.Server.Db.Rows.{EnvelopeRow, UpdateRow, Db}
use tui_chat.Server.Db.Usage.{sent_bytes}
use tui_chat.Server.Db.Store.{has_id}
use tui_chat.Server.Db.Consistent.{row_id, UniqueIds, UniqueIds-update, IsConsistent}
use tui_chat.Server.Db.Delivery.{coalesce, is_addressed, insert_update, ack_row, ack}

sent_bytes-update :
    (a : Text) (p : EnvelopeRow → Bool) (now : ℕ) (es : List EnvelopeRow)
    → sent_bytes a
        (update p (λ r. record r { delivered_at_ms = coalesce r.delivered_at_ms now }) es)
      ≡ sent_bytes a es
unfolding sent_bytes
sent_bytes-update a p now es = sum_of-update _ p _ es (λ e. refl)

insert_update-IsConsistent :
    (db : Db) (account logical : Text) (now : ℕ)
    → IsConsistent db
    → IsConsistent (insert_update db account logical now)
unfolding insert_update
insert_update-IsConsistent db account logical now v =
    elim (Bool-cases (
      any (λ row. row.account_id == account && row.update.logical_message_id == logical)
        db.delivery_updates)) [
          | inl old ↦ rw old (record {
            accounted = v.accounted;
            unique = v.unique;
            ordered = v.ordered;
            updates_ordered =
                Increasing-upper _ 0 db.update_seq _ db.delivery_updates (omega arith)
                  v.updates_ordered;
          })
          | inr new ↦ rw new (record {
            accounted = v.accounted;
            unique = v.unique;
            ordered = v.ordered;
            updates_ordered =
                Increasing-append _ 0 db.update_seq _ db.delivery_updates _ v.updates_ordered
                  (omega arith) (omega arith);
          })
        ]

-- An acknowledgement keeps the usage table exact, the ids unique and the cursors rising.
pub ack-IsConsistent :
    (db : Db) (device id : Text) (now : ℕ) → IsConsistent db → IsConsistent (ack db device id now).0
unfolding ack ack_row
ack-IsConsistent db device id now v =
    elim (Option-cases (find (is_addressed device id) db.envelopes)) [
      | inl missing ↦ rw (missing, ack) v
      | inr (row, found) ↦
          rw (found, ack)
            (insert_update-IsConsistent _ _ _ now (record {
              accounted = λ a.
                  v.accounted a
                  ∙ sym (sent_bytes-update a (is_addressed device id) now db.envelopes);
              unique = UniqueIds-update _ _ db.envelopes (λ e. refl) v.unique;
              ordered = Increasing-update _ 0 _ _ _ db.envelopes (λ e. refl) v.ordered;
              updates_ordered = v.updates_ordered;
            }))
    ]

abbrev pub is_update : Text → Text → UpdateRow → Bool
is_update account logical u = u.account_id == account && u.update.logical_message_id == logical

any-insert_update :
    (db : Db) (account logical : Text) (now : ℕ)
    → any (is_update account logical) (insert_update db account logical now).delivery_updates ≡ true
unfolding insert_update any
any-insert_update db account logical now = ground (
  arith,
  any-append (is_update account logical) db.delivery_updates (
      record {
        cursor = suc db.update_seq;
        account_id = account;
        update = record { logical_message_id = logical; delivered_at_ms = now };
      }
      ∷ []),
)

insert_update-envelopes :
    (db : Db) (account logical : Text) (now : ℕ)
    → (insert_update db account logical now).envelopes ≡ db.envelopes
unfolding insert_update
insert_update-envelopes db account logical now = ground arith

insert_update-logical_messages :
    (db : Db) (account logical : Text) (now : ℕ)
    → (insert_update db account logical now).logical_messages ≡ db.logical_messages
unfolding insert_update
insert_update-logical_messages db account logical now = ground arith

-- The addressed device's acknowledgement tells the sender and the logical message, keeps the first
-- delivery time, and leaves a delivery update of the message for the sender.
pub ack_delivers :
    (db : Db) (device id : Text) (now : ℕ) (row : EnvelopeRow)
    → find (is_addressed device id) db.envelopes ≡ some row
    → let (db', told) = ack db device id now in
      (told ≡ some (row.sender_account_id, row.envelope.logical_message_id))
      × (find (is_addressed device id) db'.envelopes
          ≡ some (record row { delivered_at_ms = coalesce row.delivered_at_ms now }))
      × (any (is_update row.sender_account_id row.envelope.logical_message_id) db'.delivery_updates
          ≡ true)
unfolding ack ack_row
ack_delivers db device id now row found =
    rw (found, ack)
      (
        refl,
        rw insert_update-envelopes
            (find-update_self (is_addressed device id) _ db.envelopes row (λ e. refl) found),
        any-insert_update _ row.sender_account_id row.envelope.logical_message_id now,
      )

ack_missing :
    (db : Db) (device id : Text) (now : ℕ)
    → any (is_addressed device id) db.envelopes ≡ false
    → ack db device id now ≡ (db, none)
unfolding ack
ack_missing db device id now h = rw (find-none_of_any _ db.envelopes h, ack)

is_addressed-absent :
    (device id : Text) (es : List EnvelopeRow)
    → any (has_id id) es ≡ false
    → any (is_addressed device id) es ≡ false
unfolding any
is_addressed-absent device id [] h = refl
is_addressed-absent device id (e ∷ es) h = ground (arith, is_addressed-absent device id es)

-- With unique ids, the row of an id decides whom it is addressed to.
is_addressed-foreign :
    (device id : Text) (es : List EnvelopeRow) (row : EnvelopeRow)
    → UniqueIds es
    → find (has_id id) es ≡ some row
    → (row.envelope.recipient_device_id == device) ≡ false
    → any (is_addressed device id) es ≡ false
unfolding find any
is_addressed-foreign device id [] row u h f = cc
is_addressed-foreign device id (e ∷ es) row u h f = elim (Bool-cases (has_id id e)) [
  | inl own ↦
      let absent : any (has_id id) es ≡ false =
        subst (λ i. any (has_id i) es ≡ false) (==_sound (row_id e) id own) u.0 in
      ground (arith, own, h, f, is_addressed-absent device id es absent)
  | inr other ↦ ground (arith, other, h, f, is_addressed-foreign device id es row u.1)
]

-- On consistent tables, the acknowledgement of a stored envelope by a device that is not its
-- recipient changes nothing and tells nobody.
pub ack_refuses :
    (db : Db) (device id : Text) (now : ℕ) (row : EnvelopeRow)
    → IsConsistent db
    → find (has_id id) db.envelopes ≡ some row
    → (row.envelope.recipient_device_id == device) ≡ false
    → ack db device id now ≡ (db, none)
ack_refuses db device id now row v found foreign =
    ack_missing db device id now
      (is_addressed-foreign device id db.envelopes row v.unique found foreign)

-- The key that an ignored delivery update draws.
abbrev skip_update : Db → Db
skip_update db = record db { update_seq = suc db.update_seq }

insert_update_again :
    (db : Db) (account logical : Text) (now : ℕ)
    → any (is_update account logical) db.delivery_updates ≡ true
    → insert_update db account logical now ≡ skip_update db
unfolding insert_update
insert_update_again db account logical now h = rw h

module _ (db : Db) (device id : Text) (now : ℕ) (row : EnvelopeRow) where
  acked : Db
  acked = record db {
    envelopes =
        update (is_addressed device id)
          (λ r. record r { delivered_at_ms = coalesce r.delivered_at_ms now }) db.envelopes;
    logical_messages =
        update (λ m. m.logical_message_id == row.envelope.logical_message_id)
          (λ m. record m { delivered_at_ms = coalesce m.delivered_at_ms now }) db.logical_messages;
  }

  ack_row_again :
      (later : ℕ) (t : Option ℕ)
      → let db' = ack_row db device id now row in
        ack_row db' device id later (record row { delivered_at_ms = t }) ≡ skip_update db'
  unfolding ack_row acked
  ack_row_again later t =
      let sender : Text = row.sender_account_id in
      let logical : Text = row.envelope.logical_message_id in
      let db' : Db = insert_update acked sender logical now in
      let e1 : update (is_addressed device id)
            (λ r. record r { delivered_at_ms = coalesce r.delivered_at_ms later }) db'.envelopes
          ≡ db'.envelopes =
        rw (insert_update-envelopes acked sender logical now)
          (update_again (is_addressed device id) _ _ db.envelopes (λ e. refl) (λ e. refl)) in
      let e2 : update (λ m. m.logical_message_id == logical)
            (λ m. record m { delivered_at_ms = coalesce m.delivered_at_ms later })
            db'.logical_messages
          ≡ db'.logical_messages =
        rw (insert_update-logical_messages acked sender logical now) (
          update_again (λ m. m.logical_message_id == logical) _ _ db.logical_messages (λ e. refl)
            (λ e. refl)) in
      (λ i.
        insert_update (record db' { envelopes = e1 i; logical_messages = e2 i }) sender logical
          later)
      ∙ insert_update_again db' sender logical later (any-insert_update acked sender logical now)

  ack_found :
      find (is_addressed device id) db.envelopes ≡ some row
      → ack db device id now ≡ (
        ack_row db device id now row,
        some (row.sender_account_id, row.envelope.logical_message_id),
      )
  unfolding ack
  ack_found found = rw (found, ack)

-- Acknowledging again, at any later time, gives the same answer, and changes nothing but the
-- AUTOINCREMENT key that the ignored delivery update draws.
pub ack_again :
    (db : Db) (device id : Text) (now later : ℕ)
    → let (db', told) = ack db device id now in
      ack db' device id later ≡ (if is_some told then skip_update db' else db', told)
ack_again db device id now later =
    elim (Option-cases (find (is_addressed device id) db.envelopes)) [
      | inl missing ↦
          let absent : any (is_addressed device id) db.envelopes ≡ false =
            any-find (is_addressed device id) db.envelopes ∙ ap is_some missing in
          rw (ack_missing db device id now absent) (ack_missing db device id later absent)
      | inr (row, found) ↦
          let t : Option ℕ = coalesce row.delivered_at_ms now in
          let found' : find (is_addressed device id) (ack_row db device id now row).envelopes
              ≡ some (record row { delivered_at_ms = t }) =
            rw (ack_found db device id now row found) at
              (ack_delivers db device id now row found).1 in
          rw (ack_found db device id now row found) (
            ack_found (ack_row db device id now row) device id later
              (record row { delivered_at_ms = t }) found'
            ∙ (λ i. (
              ack_row_again db device id now row later t i,
              some (row.sender_account_id, row.envelope.logical_message_id),
            )))
    ]
