-- ===== src/Server/Db/Store/Consistency.antt =====
-- The steps of `store_envelopes` in crates/server/src/db.rs and the consistency of the tables.
use tui_chat.Base.{
  ℕ, ◌≤◌, ◌≡◌, sym, subst, ltb, false, List, [], ◌∷◌, ok, bail_if, list_eq, nat_eq, arith,
  >>=-eq-ok,
}
use tui_chat.Base.Text.{Bytes, Text}
use tui_chat.Base.Int.{int_eq}
use tui_chat.Protocol.Messages.{EncryptedEnvelope}
use tui_chat.Server.Db.Rows.{LogicalRow, Db, StorageLimits}
use tui_chat.Server.Db.Consistent.{IsConsistent, insert_envelope-IsConsistent}
use tui_chat.Server.Db.Batch.{Batch, check_batch}
use tui_chat.Server.Db.Store.{
  insert_logical, insert_envelope, store_one, store_all, claim_logical, store_batch,
  store_envelopes, is_unavailable, check_quota, logical_row, active_envelopes, additional_bytes,
}

-- Only the logical messages change.
pub claim_logical_lem :
    (db : Db) (row : LogicalRow) (db' : Db)
    → claim_logical db row ≡ ok db'
    → db' ≡ record db { logical_messages = db'.logical_messages }
unfolding claim_logical insert_logical
claim_logical_lem db row db' h = ground arith

pub claim_logical-IsConsistent :
    (db : Db) (row : LogicalRow) (db' : Db)
    → IsConsistent db
    → claim_logical db row ≡ ok db'
    → IsConsistent db'
claim_logical-IsConsistent db row db' v h =
    subst IsConsistent (sym (claim_logical_lem db row db' h)) (record {
      accounted = v.accounted;
      unique = v.unique;
      ordered = v.ordered;
      updates_ordered = v.updates_ordered;
    })

module _ (sender sender_device : Text) (now : ℕ) where
  pub store_one-insert_envelope :
      (db : Db) (e : EncryptedEnvelope) (db' : Db) (r : Text × ℕ)
      → store_one sender sender_device now db e ≡ ok (db', r)
      → insert_envelope db sender sender_device now e ≡ ok db'
  unfolding store_one
  store_one-insert_envelope db e db' r h = ground arith

  pub store_all_step :
      (db : Db) (e : EncryptedEnvelope) (es : List EncryptedEnvelope) (db' : Db)
      (r : List (Text × ℕ))
      → store_all sender sender_device now db (e ∷ es) ≡ ok (db', r)
      → (db1 : Db) × (one : Text × ℕ) × (rest : List (Text × ℕ)) × (store_one sender sender_device
            now db e
          ≡ ok (db1, one))
        × (store_all sender sender_device now db1 es ≡ ok (db', rest))
        × (r ≡ one ∷ rest)
  unfolding store_all
  store_all_step db e es db' r h =
      let ((db1, one), first_stored, h1) =
        >>=-eq-ok (store_one sender sender_device now db e) _ h in
      let ((db2, rest), rest_stored, h2) =
        >>=-eq-ok (store_all sender sender_device now db1 es) _ h1 in
      (db1, one, rest, first_stored, ground arith, ground arith)

  -- What holds of a database and is kept by each insertion holds after all of them.
  pub store_all_inv {ℓ} :
      (P : Db → Type ℓ)
      → ((db : Db) (e : EncryptedEnvelope) (db' : Db)
          → P db
          → insert_envelope db sender sender_device now e ≡ ok db'
          → P db')
      → (db : Db) (es : List EncryptedEnvelope) (db' : Db) (r : List (Text × ℕ)) → P db
      → store_all sender sender_device now db es ≡ ok (db', r)
      → P db'
  unfolding store_all
  store_all_inv P keep db [] db' r p h = subst P (ground arith) p
  store_all_inv P keep db (e ∷ es) db' r p h =
      let (db1, one, rest, stored, rest_stored, _) = store_all_step db e es db' r h in
      store_all_inv P keep db1 es db' rest
        (keep db e db1 p (store_one-insert_envelope db e db1 one stored)) rest_stored

  pub store_all-IsConsistent :
      (db : Db) (es : List EncryptedEnvelope) (db' : Db) (r : List (Text × ℕ))
      → IsConsistent db
      → store_all sender sender_device now db es ≡ ok (db', r)
      → IsConsistent db'
  store_all-IsConsistent =
      store_all_inv IsConsistent
        (λ db e db' v h. insert_envelope-IsConsistent db sender sender_device now e db' v h)

module _ (sha256 : Bytes → Bytes) (free_disk_bytes : ℕ) (db : Db) (sender sender_device : Text)
    (envelopes : List EncryptedEnvelope) (now : ℕ) (limits : StorageLimits) (db' : Db)
    (r : List (Text × ℕ)) where
  -- The steps that a successful `store_envelopes` has taken.
  pub record Stored : Type 0 where
    pub batch : Batch
    pub claimed : Db
    pub additional : ℕ
    pub checked : check_batch sha256 sender envelopes ≡ ok batch
    pub enough_disk : limits.min_free_disk_bytes ≤ free_disk_bytes
    pub claims : claim_logical db (logical_row sender sender_device batch now) ≡ ok claimed
    pub available : is_unavailable sender batch.peer (active_envelopes claimed envelopes) ≡ false
    pub counted : additional_bytes claimed 0 (active_envelopes claimed envelopes) ≡ ok additional
    pub within : check_quota claimed sender additional limits ≡ ok tt
    pub stores :
        store_all sender sender_device now claimed (active_envelopes claimed envelopes)
        ≡ ok (db', r)

  pub store_envelopes_steps :
      store_envelopes sha256 free_disk_bytes db sender sender_device envelopes now limits
        ≡ ok (db', r)
      → Stored
  unfolding store_envelopes store_batch
  store_envelopes_steps h =
      let (batch, checked, h1) = >>=-eq-ok (check_batch sha256 sender envelopes) _ h in
      let (_, disk, h2) =
        >>=-eq-ok (bail_if (ltb free_disk_bytes limits.min_free_disk_bytes) _) _ h1 in
      let (claimed, claims, h3) =
        >>=-eq-ok (claim_logical db (logical_row sender sender_device batch now)) _ h2 in
      let (_, available, h4) =
        >>=-eq-ok
          (bail_if (is_unavailable sender batch.peer (active_envelopes claimed envelopes)) _) _
          h3 in
      let (additional, counted, h5) =
        >>=-eq-ok (additional_bytes claimed 0 (active_envelopes claimed envelopes)) _ h4 in
      let (_, within, stores) = >>=-eq-ok (check_quota claimed sender additional limits) _ h5 in
      record {
        batch = batch;
        claimed = claimed;
        additional = additional;
        checked = checked;
        enough_disk = ground arith;
        claims = claims;
        available = ground arith;
        counted = counted;
        within = within;
        stores = stores;
      }

  -- On consistent tables, an accepted batch keeps the usage table exact, the ids unique and the
  -- cursors rising.
  pub store_envelopes-IsConsistent :
      IsConsistent db
      → store_envelopes sha256 free_disk_bytes db sender sender_device envelopes now limits
        ≡ ok (db', r)
      → IsConsistent db'
  store_envelopes-IsConsistent v h =
      let s = store_envelopes_steps h in
      store_all-IsConsistent sender sender_device now s.claimed _ db' r
        (claim_logical-IsConsistent db _ s.claimed v s.claims) s.stores
