-- ===== src/Server/Db/Store/Immutable.antt =====
-- The rows of envelopes before and after `store_envelopes` of crates/server/src/db.rs.
use tui_chat.Base.{
  ℕ, ◌≡◌, sym, ap, subst, true, not, List, [], ◌∷◌, some, ok, constraint, bail_if, ok_or, list_eq,
  ==_sound, nat_eq, find, arith, >>=-eq-ok,
}
use tui_chat.Base.Text.{Bytes, Text}
use tui_chat.Base.Int.{int_eq}
use tui_chat.Base.Queries.{find-append_found, holds_of_find}
use tui_chat.Protocol.Messages.{EncryptedEnvelope}
use tui_chat.Server.Db.Rows.{EnvelopeRow, Db, StorageLimits}
use tui_chat.Server.Db.Consistent.{row_id}
use tui_chat.Server.Db.Store.{
  has_id, insert_envelope, is_same_envelope, new_row, store_one, store_all, store_envelopes,
  active_envelopes,
}
use tui_chat.Server.Db.Store.Consistency.{
  store_all_step, store_all_inv, store_envelopes_steps, claim_logical_lem,
}

-- The envelope `e` is stored as the account and device sent it, and `receipt` names its recipient
-- and its cursor.
pub record Persisted (sender sender_device : Text) (db : Db) (e : EncryptedEnvelope)
    (receipt : Text × ℕ) : Type 0 where
  pub row : EnvelopeRow
  pub found : find (has_id e.envelope_id) db.envelopes ≡ some row
  pub content : row.envelope ≡ e
  pub from_account : row.sender_account_id ≡ sender
  pub from_device : row.sender_device_id ≡ sender_device
  pub device : receipt.0 ≡ e.recipient_device_id
  pub cursor : receipt.1 ≡ row.cursor

-- The receipts stand in the order of the envelopes.
abbrev pub AllPersisted : Text → Text → Db → List EncryptedEnvelope → List (Text × ℕ) → Type 0
AllPersisted sender sender_device db [] [] = Unit {0}
AllPersisted sender sender_device db [] (r ∷ rs) = ⊥
AllPersisted sender sender_device db (e ∷ es) [] = ⊥
AllPersisted sender sender_device db (e ∷ es) (r ∷ rs) =
    Persisted sender sender_device db e r × AllPersisted sender sender_device db es rs

is_same_envelope_content :
    (sender sender_device : Text) (e : EncryptedEnvelope) (row : EnvelopeRow)
    → is_same_envelope sender sender_device e row ≡ true
    → row_id row ≡ e.envelope_id
    → (row.envelope ≡ e) × (row.sender_account_id ≡ sender) × (row.sender_device_id ≡ sender_device)
unfolding is_same_envelope
is_same_envelope_content sender sender_device e row h same = ground arith

module _ (sender sender_device : Text) (now : ℕ) where
  pub insert_envelope-find :
      (db : Db) (e : EncryptedEnvelope) (db' : Db) (id : Text) (row : EnvelopeRow)
      → insert_envelope db sender sender_device now e ≡ ok db'
      → find (has_id id) db.envelopes ≡ some row
      → find (has_id id) db'.envelopes ≡ some row
  unfolding insert_envelope
  insert_envelope-find db e db' id row h f = ground (
    arith,
    find-append_found (has_id id) db.envelopes (new_row db sender sender_device now e ∷ []) row,
  )

  store_one_row :
      (db : Db) (e : EncryptedEnvelope) (db' : Db) (r : Text × ℕ)
      → store_one sender sender_device now db e ≡ ok (db', r)
      → (row : EnvelopeRow) × (find (has_id e.envelope_id) db'.envelopes ≡ some row)
        × (is_same_envelope sender sender_device e row ≡ true)
        × (r ≡ (e.recipient_device_id, row.cursor))
  unfolding store_one
  store_one_row db e db' r h =
      let (db1, _, h1) = >>=-eq-ok (insert_envelope db sender sender_device now e) _ h in
      let (row, found, h2) =
        >>=-eq-ok (ok_or (find (has_id e.envelope_id) db1.envelopes) constraint) _ h1 in
      let (_, same, h3) =
        >>=-eq-ok (bail_if (not (is_same_envelope sender sender_device e row)) _) _ h2 in
      (row, ground arith, ground arith, ground arith)

  store_one-Persisted :
      (db : Db) (e : EncryptedEnvelope) (db' : Db) (r : Text × ℕ)
      → store_one sender sender_device now db e ≡ ok (db', r)
      → Persisted sender sender_device db' e r
  store_one-Persisted db e db' r h =
      let (row, found, same, receipt) = store_one_row db e db' r h in
      let same_id : row_id row ≡ e.envelope_id =
        ==_sound _ _ (holds_of_find (has_id e.envelope_id) db'.envelopes row found) in
      let (content, account, device) =
        is_same_envelope_content sender sender_device e row same same_id in
      record {
        row = row;
        found = found;
        content = content;
        from_account = account;
        from_device = device;
        device = ap (λ p. p.0) receipt;
        cursor = ap (λ p. p.1) receipt;
      }

  Persisted-insert_envelope :
      (db : Db) (x : EncryptedEnvelope) (db' : Db) (e : EncryptedEnvelope) (r : Text × ℕ)
      → insert_envelope db sender sender_device now x ≡ ok db'
      → Persisted sender sender_device db e r
      → Persisted sender sender_device db' e r
  Persisted-insert_envelope db x db' e r h p = record {
    row = p.row;
    found = insert_envelope-find db x db' e.envelope_id p.row h p.found;
    content = p.content;
    from_account = p.from_account;
    from_device = p.from_device;
    device = p.device;
    cursor = p.cursor;
  }

  pub store_all-AllPersisted :
      (db : Db) (es : List EncryptedEnvelope) (db' : Db) (r : List (Text × ℕ))
      → store_all sender sender_device now db es ≡ ok (db', r)
      → AllPersisted sender sender_device db' es r
  unfolding store_all
  store_all-AllPersisted db [] db' [] h = tt
  store_all-AllPersisted db [] db' (x ∷ r) h = cc
  store_all-AllPersisted db (e ∷ es) db' r h =
      let (db1, one, rest, stored, rest_stored, receipts) =
        store_all_step sender sender_device now db e es db' r h in
      subst (AllPersisted sender sender_device db' (e ∷ es)) (sym receipts) (
        store_all_inv sender sender_device now (λ d. Persisted sender sender_device d e one)
            (λ d x d' p ins. Persisted-insert_envelope d x d' e one ins p) db1 es db' rest
            (store_one-Persisted db e db1 one stored) rest_stored,
        store_all-AllPersisted db1 es db' rest rest_stored,
      )

module _ (sha256 : Bytes → Bytes) (free_disk_bytes : ℕ) (db : Db) (sender sender_device : Text)
    (envelopes : List EncryptedEnvelope) (now : ℕ) (limits : StorageLimits) (db' : Db)
    (r : List (Text × ℕ)) where
  -- A row that is stored is found again, unchanged, after any batch that is accepted.
  pub store_envelopes_immutable :
      (id : Text) (row : EnvelopeRow)
      → store_envelopes sha256 free_disk_bytes db sender sender_device envelopes now limits
        ≡ ok (db', r)
      → find (has_id id) db.envelopes ≡ some row
      → find (has_id id) db'.envelopes ≡ some row
  store_envelopes_immutable id row h found =
      let s =
        store_envelopes_steps sha256 free_disk_bytes db sender sender_device envelopes now limits
          db' r h in
      store_all_inv sender sender_device now (λ d. find (has_id id) d.envelopes ≡ some row)
        (λ d e d' f ins. insert_envelope-find sender sender_device now d e d' id row ins f)
        s.claimed _ db' r
        (subst (λ d. find (has_id id) d.envelopes ≡ some row)
          (sym (claim_logical_lem db _ s.claimed s.claims)) found)
        s.stores

  -- An accepted batch stores each envelope whose recipient device is active as it was sent, and
  -- reports its recipient device and its cursor, in the order of the batch.
  pub store_envelopes-AllPersisted :
      store_envelopes sha256 free_disk_bytes db sender sender_device envelopes now limits
        ≡ ok (db', r)
      → AllPersisted sender sender_device db' (active_envelopes db envelopes) r
  unfolding active_envelopes
  store_envelopes-AllPersisted h =
      let s =
        store_envelopes_steps sha256 free_disk_bytes db sender sender_device envelopes now limits
          db' r h in
      subst (λ d. AllPersisted sender sender_device db' (active_envelopes d envelopes) r)
        (claim_logical_lem db _ s.claimed s.claims)
        (store_all-AllPersisted sender sender_device now s.claimed _ db' r s.stores)
