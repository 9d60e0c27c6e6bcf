-- ===== src/Server/Db/Store/Retry.antt =====
-- A batch that is sent again to `store_envelopes` of crates/server/src/db.rs after it was
-- accepted.
use tui_chat.Base.{
  ℕ, ◌+◌, ◌≤◌, ◌<◌, ◌≡◌, ap, length, refl, true, not, List, [], ◌∷◌, some, ok, constraint, ◌>>=◌,
  bail_if, ok_or, list_eq, nat_eq, find, arith, >>=-eq-ok,
}
use tui_chat.Base.Text.{Bytes, Text}
use tui_chat.Base.Int.{int_eq}
use tui_chat.Base.Queries.{any-find}
use tui_chat.Protocol.Messages.{EncryptedEnvelope}
use tui_chat.Server.Db.Rows.{LogicalRow, Db, StorageLimits, usage_of, total_usage}
use tui_chat.Server.Db.Batch.{Batch}
use tui_chat.Server.Db.Store.{
  has_id, is_logical, u64_max, skip_cursor, insert_envelope, insert_logical, is_same_logical,
  claim_logical, is_same_envelope, store_one, store_all, store_batch, store_envelopes,
  active_envelopes, add_bytes, additional_bytes, check_quota, logical_row,
}
use tui_chat.Server.Db.Store.Consistency.{store_all_inv, store_envelopes_steps}
use tui_chat.Server.Db.Store.Immutable.{Persisted, AllPersisted, store_all-AllPersisted}
use tui_chat.Server.Db.Store.Quota.{store_envelopes_usage}

-- The tables that no insertion of an envelope touches.
abbrev SameTables : Db → Db → Type 0
SameTables d db =
    (db.accounts ≡ d.accounts)
    × (db.devices ≡ d.devices)
    × (db.logical_messages ≡ d.logical_messages)

insert_envelope-SameTables :
    (d : Db) (sender sender_device : Text) (now : ℕ) (db : Db) (e : EncryptedEnvelope) (db' : Db)
    → SameTables d db
    → insert_envelope db sender sender_device now e ≡ ok db'
    → SameTables d db'
unfolding insert_envelope skip_cursor
insert_envelope-SameTables d sender sender_device now db e db' s h = ground arith

active_envelopes-SameTables :
    (d db : Db) (es : List EncryptedEnvelope)
    → SameTables d db
    → active_envelopes db es ≡ active_envelopes d es
unfolding active_envelopes
active_envelopes-SameTables d db es s = rw (s.0, s.1)

claim_logical_found :
    (db : Db) (row : LogicalRow) (db' : Db)
    → claim_logical db row ≡ ok db'
    → (old : LogicalRow) × (find (is_logical row.logical_message_id) db'.logical_messages
        ≡ some old)
      × (is_same_logical old row ≡ true)
unfolding claim_logical
claim_logical_found db row db' h =
    let (db1, _, h1) = >>=-eq-ok (insert_logical db row) _ h in
    let (old, found, h2) =
      >>=-eq-ok (ok_or (find (is_logical row.logical_message_id) db1.logical_messages) constraint) _
        h1 in
    let (_, same, h3) = >>=-eq-ok (bail_if (not (is_same_logical old row)) _) _ h2 in
    (old, ground arith, ground arith)

-- The keys of `n` insertions that are ignored.
abbrev skip_cursors : ℕ → Db → Db
skip_cursors n db = record db { envelope_seq = db.envelope_seq + n }

module _ (sender sender_device : Text) where
  claim_logical_again :
      (batch : Batch) (now later : ℕ) (db d db' : Db)
      → claim_logical db (logical_row sender sender_device batch now) ≡ ok d
      → db'.logical_messages ≡ d.logical_messages
      → claim_logical db' (logical_row sender sender_device batch later) ≡ ok db'
  unfolding claim_logical insert_logical logical_row is_same_logical
  claim_logical_again batch now later db d db' h same =
      let (old, found, agrees) = claim_logical_found db _ d h in
      ground (arith, any-find (is_logical batch.logical) db'.logical_messages)

  additional_bytes_again :
      (db : Db) (es : List EncryptedEnvelope) (r : List (Text × ℕ))
      → AllPersisted sender sender_device db es r
      → additional_bytes db 0 es ≡ ok 0
  unfolding additional_bytes add_bytes
  additional_bytes_again db [] r p = refl
  additional_bytes_again db (e ∷ es) [] p = absurd p
  additional_bytes_again db (e ∷ es) (r ∷ rs) p =
      ground (arith, additional_bytes_again db es rs p.1, p.0.found, p.0.content)

  store_one_again :
      (later : ℕ) (db : Db) (e : EncryptedEnvelope) (r : Text × ℕ)
      → Persisted sender sender_device db e r
      → store_one sender sender_device later db e ≡ ok (skip_cursor db, r)
  unfolding store_one insert_envelope is_same_envelope skip_cursor
  store_one_again later db e r p = ground (
    arith,
    p.found,
    p.content,
    p.from_account,
    p.from_device,
    p.device,
    p.cursor,
    any-find (has_id e.envelope_id) db.envelopes,
  )

  AllPersisted-skip_cursor :
      (db : Db) (es : List EncryptedEnvelope) (r : List (Text × ℕ))
      → AllPersisted sender sender_device db es r
      → AllPersisted sender sender_device (skip_cursor db) es r
  unfolding skip_cursor
  AllPersisted-skip_cursor db [] [] p = tt
  AllPersisted-skip_cursor db [] (r ∷ rs) p = absurd p
  AllPersisted-skip_cursor db (e ∷ es) [] p = absurd p
  AllPersisted-skip_cursor db (e ∷ es) (r ∷ rs) p = (
    record {
      row = p.0.row;
      found = p.0.found;
      content = p.0.content;
      from_account = p.0.from_account;
      from_device = p.0.from_device;
      device = p.0.device;
      cursor = p.0.cursor;
    },
    AllPersisted-skip_cursor db es rs p.1,
  )

  store_all_again :
      (later : ℕ) (db : Db) (es : List EncryptedEnvelope) (r : List (Text × ℕ))
      → AllPersisted sender sender_device db es r
      → store_all sender sender_device later db es ≡ ok (skip_cursors (length r) db, r)
  unfolding store_all skip_cursor
  store_all_again later db [] [] p = ap (λ n. ok (record db { envelope_seq = n }, [])) (omega arith)
  store_all_again later db [] (r ∷ rs) p = absurd p
  store_all_again later db (e ∷ es) [] p = absurd p
  store_all_again later db (e ∷ es) (r ∷ rs) p =
      rw (store_one_again later db e r p.0, ◌>>=◌)
        (rw
          (
            store_all_again later (skip_cursor db) es rs (AllPersisted-skip_cursor db es rs p.1),
            ◌>>=◌,
          )
          (ap (λ n. ok (record db { envelope_seq = n }, r ∷ rs)) (omega arith)))

check_quota_again :
    (db : Db) (sender : Text) (limits : StorageLimits)
    → limits.max_account_ciphertext_bytes < u64_max
    → limits.max_total_ciphertext_bytes < u64_max
    → (usage_of sender db.account_storage_usage ≤ limits.max_account_ciphertext_bytes)
      × (total_usage db.account_storage_usage ≤ limits.max_total_ciphertext_bytes)
    → check_quota db sender 0 limits ≡ ok tt
unfolding check_quota
check_quota_again db sender limits a t within = ground arith

-- A client that did not hear the answer may send its accepted batch again: if no other request
-- came between and the disk is not full by then, the server answers at any later time with the same
-- receipts. No table changes; only the AUTOINCREMENT keys of the ignored insertions are used up, one
-- for each receipt. The limits are below the saturation of `u64`.
pub store_envelopes_retry :
    (sha256 : Bytes → Bytes) (free_disk_bytes later_free_disk_bytes : ℕ) (db : Db)
    (sender sender_device : Text) (envelopes : List EncryptedEnvelope) (now later : ℕ)
    (limits : StorageLimits) (db' : Db) (r : List (Text × ℕ))
    → limits.max_account_ciphertext_bytes < u64_max
    → limits.max_total_ciphertext_bytes < u64_max
    → limits.min_free_disk_bytes ≤ later_free_disk_bytes
    → store_envelopes sha256 free_disk_bytes db sender sender_device envelopes now limits
      ≡ ok (db', r)
    → store_envelopes sha256 later_free_disk_bytes db' sender sender_device envelopes later limits
      ≡ ok (record db' { envelope_seq = db'.envelope_seq + length r }, r)
unfolding store_envelopes store_batch
store_envelopes_retry sha256 disk later_disk db sender sender_device envelopes now later limits db'
      r a t room h =
    let s =
      store_envelopes_steps sha256 disk db sender sender_device envelopes now limits db' r h in
    let tables : SameTables s.claimed db' =
      store_all_inv sender sender_device now (SameTables s.claimed)
        (insert_envelope-SameTables s.claimed sender sender_device now) s.claimed _ db' r
        (refl, refl, refl) s.stores in
    let stored = store_all-AllPersisted sender sender_device now s.claimed _ db' r s.stores in
    ground (
      arith,
      s.checked,
      room,
      claim_logical_again sender sender_device s.batch now later db s.claimed db' s.claims tables.2,
      active_envelopes-SameTables s.claimed db' envelopes tables,
      s.available,
      additional_bytes_again sender sender_device db' _ r stored,
      check_quota_again db' sender limits a t (
          store_envelopes_usage sha256 disk db sender sender_device envelopes now limits db' r a t
            h),
      store_all_again sender sender_device later db' _ r stored,
    )
