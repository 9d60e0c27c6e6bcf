-- ===== src/Server/Db/Delivery/Reach.antt =====
-- From `store_envelopes` to `sync` in crates/server/src/db.rs.
use tui_chat.Base.{
  ℕ, ◌≡◌, refl, subst, Bool, true, ◌&&◌, List, [], ◌∷◌, some, ok, arith, find, any, select, All,
  ◌==◌, list_eq, nat_eq, ==_refl, Option-cases, inl, inr,
}
use tui_chat.Base.Text.{Bytes, Text}
use tui_chat.Base.Int.{as_i64}
use tui_chat.Base.Keyed.{lt_of_find}
use tui_chat.Base.Queries.{any-find}
use tui_chat.Protocol.Messages.{EncryptedEnvelope, StoredEnvelope}
use tui_chat.Server.Db.Rows.{Account, EnvelopeRow, Db, StorageLimits}
use tui_chat.Server.Db.Consistent.{IsConsistent}
use tui_chat.Server.Db.Store.{has_id, active_envelopes, store_envelopes}
use tui_chat.Server.Db.Store.Immutable.{AllPersisted, Persisted, store_envelopes-AllPersisted}
use tui_chat.Server.Db.Store.Consistency.{store_envelopes-IsConsistent}
use tui_chat.Server.Db.Delivery.{stored_row, joined, is_queued, queued}

-- A copy of the envelope, from the sender.
abbrev pub is_copy : Text → EncryptedEnvelope → StoredEnvelope → Bool
is_copy sender e s =
    s.sender_account_id == sender
    && (s.envelope.envelope_id == e.envelope_id && s.envelope.ciphertext == e.ciphertext)

stored_row-is_copy :
    (accounts : List Account) (row : EnvelopeRow)
    → any (λ a. a.id == row.sender_account_id) accounts ≡ true
    → (s : StoredEnvelope) × (stored_row accounts row ≡ some s)
      × (is_copy row.sender_account_id row.envelope s ≡ true)
unfolding stored_row
stored_row-is_copy accounts row h =
    elim (Option-cases (find (λ a. a.id == row.sender_account_id) accounts)) [
      | inl n ↦ ground (arith, h, n, any-find (λ a. a.id == row.sender_account_id) accounts)
      | inr (a, n) ↦ (
        record {
          cursor = row.cursor;
          sender_account_id = row.sender_account_id;
          sender_device_id = row.sender_device_id;
          envelope = row.envelope;
          accepted_at_ms = row.accepted_at_ms;
          sender_username = a.username;
        },
        rw n refl,
        ground arith,
      )
    ]

joined-finds :
    (accounts : List Account) (f : EnvelopeRow → Bool) (id : Text) (rows : List EnvelopeRow)
    (row : EnvelopeRow)
    → any (λ a. a.id == row.sender_account_id) accounts ≡ true
    → f row ≡ true
    → find (has_id id) rows ≡ some row
    → any (is_copy row.sender_account_id row.envelope) (joined accounts (select f rows)) ≡ true
unfolding joined select find any
joined-finds accounts f id [] row h k e = cc
joined-finds accounts f id (x ∷ rows) row h k e =
    let (s, stored, copy) = stored_row-is_copy accounts row h in
    elim (Option-cases (stored_row accounts x)) [
      | inl n ↦ ground (arith, e, k, n, stored, joined-finds accounts f id rows row h k)
      | inr (t, n) ↦ ground (arith, e, k, n, stored, copy, joined-finds accounts f id rows row h k)
    ]

Persisted-queued :
    (db : Db) (sender sender_device : Text) (e : EncryptedEnvelope) (receipt : Text × ℕ)
    → IsConsistent db
    → any (λ a. a.id == sender) db.accounts ≡ true
    → Persisted sender sender_device db e receipt
    → any (is_copy sender e) (queued db e.recipient_device_id 0) ≡ true
unfolding queued is_queued as_i64
Persisted-queued db sender sender_device e receipt v there p =
    let above =
      lt_of_find (λ r. r.cursor) (has_id e.envelope_id) 0 db.envelope_seq db.envelopes p.row
        v.ordered p.found in
    let sent : any (λ a. a.id == p.row.sender_account_id) db.accounts ≡ true =
      rw p.from_account there in
    let waiting : is_queued e.recipient_device_id 0 p.row ≡ true =
      ground (arith, above, p.content, ==_refl e.recipient_device_id) in
    subst (λ x. any (is_copy sender x) (queued db e.recipient_device_id 0) ≡ true) p.content
      (subst (λ x. any (is_copy x p.row.envelope) (queued db e.recipient_device_id 0) ≡ true)
        p.from_account
        (joined-finds db.accounts (is_queued e.recipient_device_id 0) e.envelope_id db.envelopes
          p.row sent waiting p.found))

All-queued :
    (db : Db) (sender sender_device : Text) (es : List EncryptedEnvelope) (r : List (Text × ℕ))
    → IsConsistent db
    → any (λ a. a.id == sender) db.accounts ≡ true
    → AllPersisted sender sender_device db es r
    → All (λ e. any (is_copy sender e) (queued db e.recipient_device_id 0) ≡ true) es
All-queued db sender sender_device [] r v there p = tt
All-queued db sender sender_device (e ∷ es) [] v there p = absurd p
All-queued db sender sender_device (e ∷ es) (x ∷ r) v there p = (
  Persisted-queued db sender sender_device e x v there p.0,
  All-queued db sender sender_device es r v there p.1,
)

-- On consistent tables, each envelope of an accepted batch whose recipient device is active is in
-- the queue that the device syncs from: with the sender's account, its id and its ciphertext. The
-- sender is one of the accounts.
pub store_envelopes-queued :
    (sha256 : Bytes → Bytes) (free_disk_bytes : ℕ) (db : Db) (sender sender_device : Text)
    (envelopes : List EncryptedEnvelope) (now : ℕ) (limits : StorageLimits) (db' : Db)
    (r : List (Text × ℕ))
    → IsConsistent db
    → any (λ a. a.id == sender) db'.accounts ≡ true
    → store_envelopes sha256 free_disk_bytes db sender sender_device envelopes now limits
      ≡ ok (db', r)
    → All
        (λ e. any (is_copy sender e) (queued db' e.recipient_device_id 0) ≡ true)
        (active_envelopes db envelopes)
store_envelopes-queued sha256 disk db sender sender_device envelopes now limits db' r v there h =
    All-queued db' sender sender_device (active_envelopes db envelopes) r
      (store_envelopes-IsConsistent sha256 disk db sender sender_device envelopes now limits db' r v
        h)
      there
      (store_envelopes-AllPersisted sha256 disk db sender sender_device envelopes now limits db' r
        h)
