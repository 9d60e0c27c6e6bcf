-- ===== src/Server/Db/Store/Quota.antt =====
-- The ciphertext quotas of `store_envelopes` in crates/server/src/db.rs.
use tui_chat.Base.Queries.{sum_of-delete, any-append, any-find}
use tui_chat.Server.Db.Usage.{
  sent_bytes-delete, sent_bytes, usage_of-add_usage, total_usage-add_usage,
}
use tui_chat.Server.Db.Store.Consistency.{
  store_envelopes-IsConsistent, store_all_step, store_one-insert_envelope, store_envelopes_steps,
}
use tui_chat.Base.{
  refl, inl, inr, subst, ==_sound, ==_refl, Bool-cases, ◌==◌, Bool, delete, select, sum_of, ℕ, ◌+◌,
  ◌≤◌, ◌<◌, ◌≡◌, List, [], ◌∷◌, ok, if◌then◌else◌, list_eq, nat_eq, length, any, arith, >>=-eq-ok,
}
use tui_chat.Server.Db.Rows.{
  ciphertext_length, EnvelopeRow, UsageRow, Db, StorageLimits, usage_of, total_usage,
}
use tui_chat.Server.Db.Store.{
  skip_cursor, has_id, u64_max, insert_envelope, new_row, store_all, store_envelopes, add_bytes,
  additional_bytes, check_quota,
}
use tui_chat.Server.Db.Consistent.{IsConsistent}
use tui_chat.Base.Text.{Bytes, Text}
use tui_chat.Base.Int.{int_eq}
use tui_chat.Protocol.Messages.{EncryptedEnvelope}

-- The bytes of the envelopes that are not stored yet.
fresh_bytes : Db → List EncryptedEnvelope → ℕ
fresh_bytes db [] = 0
fresh_bytes db (e ∷ es) =
    (if any (has_id e.envelope_id) db.envelopes then 0 else length e.ciphertext) + fresh_bytes db es

add_bytes-fresh_bytes :
    (db : Db) (acc : ℕ) (e : EncryptedEnvelope) (n : ℕ)
    → add_bytes db acc e ≡ ok n
    → n ≡ acc + fresh_bytes db (e ∷ [])
unfolding add_bytes fresh_bytes
add_bytes-fresh_bytes db acc e n h = ground (arith, any-find (has_id e.envelope_id) db.envelopes)

additional_bytes-fresh_bytes :
    (db : Db) (acc : ℕ) (es : List EncryptedEnvelope) (n : ℕ)
    → additional_bytes db acc es ≡ ok n
    → n ≡ acc + fresh_bytes db es
unfolding additional_bytes fresh_bytes
additional_bytes-fresh_bytes db acc [] n h = ground arith
additional_bytes-fresh_bytes db acc (e ∷ es) n h =
    let (acc', added, rest) = >>=-eq-ok (add_bytes db acc e) _ h in
    omega (
      arith,
      add_bytes-fresh_bytes db acc e acc' added,
      additional_bytes-fresh_bytes db acc' es n rest,
    )

fresh_bytes_cons :
    (db : Db) (e : EncryptedEnvelope) (es : List EncryptedEnvelope)
    → fresh_bytes db (e ∷ es) ≡ fresh_bytes db (e ∷ []) + fresh_bytes db es
unfolding fresh_bytes
fresh_bytes_cons db e es = omega arith

check_quota_lem :
    (db : Db) (sender : Text) (n : ℕ) (limits : StorageLimits)
    → limits.max_account_ciphertext_bytes < u64_max
    → limits.max_total_ciphertext_bytes < u64_max
    → check_quota db sender n limits ≡ ok tt
    → (usage_of sender db.account_storage_usage + n ≤ limits.max_account_ciphertext_bytes)
      × (total_usage db.account_storage_usage + n ≤ limits.max_total_ciphertext_bytes)
unfolding check_quota
check_quota_lem db sender n limits a t h = ground arith

-- What one insertion adds to the usage of an account and to the sum of all.
module _ (sender sender_device : Text) (now : ℕ) where
  insert_envelope-usage :
      (db : Db) (e : EncryptedEnvelope) (db' : Db)
      → insert_envelope db sender sender_device now e ≡ ok db'
      → (usage_of sender db'.account_storage_usage
          ≡ usage_of sender db.account_storage_usage + fresh_bytes db (e ∷ []))
        × (total_usage db'.account_storage_usage
            ≡ total_usage db.account_storage_usage + fresh_bytes db (e ∷ []))
  unfolding fresh_bytes insert_envelope skip_cursor
  insert_envelope-usage db e db' h = ground (
    arith,
    usage_of-add_usage sender sender (length e.ciphertext) db.account_storage_usage,
    total_usage-add_usage sender (length e.ciphertext) db.account_storage_usage,
  )

  fresh_bytes-insert_envelope :
      (db : Db) (e : EncryptedEnvelope) (db' : Db) (es : List EncryptedEnvelope)
      → insert_envelope db sender sender_device now e ≡ ok db'
      → fresh_bytes db' es ≤ fresh_bytes db es
  unfolding fresh_bytes insert_envelope skip_cursor
  fresh_bytes-insert_envelope db e db' [] h = omega arith
  fresh_bytes-insert_envelope db e db' (x ∷ es) h = ground (
    arith,
    fresh_bytes-insert_envelope db e db' es h,
    any-append (has_id x.envelope_id) db.envelopes (new_row db sender sender_device now e ∷ []),
  )

  store_all-usage :
      (db : Db) (es : List EncryptedEnvelope) (db' : Db) (r : List (Text × ℕ))
      → store_all sender sender_device now db es ≡ ok (db', r)
      → (usage_of sender db'.account_storage_usage
          ≤ usage_of sender db.account_storage_usage + fresh_bytes db es)
        × (total_usage db'.account_storage_usage
            ≤ total_usage db.account_storage_usage + fresh_bytes db es)
  unfolding store_all
  store_all-usage db [] db' r h = ground arith
  store_all-usage db (e ∷ es) db' r h =
      let (db1, one, rest, stored, rest_stored, _) =
        store_all_step sender sender_device now db e es db' r h in
      let inserted = store_one-insert_envelope sender sender_device now db e db1 one stored in
      omega (
        arith,
        insert_envelope-usage db e db1 inserted,
        fresh_bytes_cons db e es,
        fresh_bytes-insert_envelope db e db1 es inserted,
        store_all-usage db1 es db' rest rest_stored,
      )

-- The counters of an accepted batch stay within the limits.
pub store_envelopes_usage :
    (sha256 : Bytes → Bytes) (free_disk_bytes : ℕ) (db : Db) (sender sender_device : Text)
    (envelopes : List EncryptedEnvelope) (now : ℕ) (limits : StorageLimits) (db' : Db)
    (r : List (Text × ℕ))
    → limits.max_account_ciphertext_bytes < u64_max
    → limits.max_total_ciphertext_bytes < u64_max
    → store_envelopes sha256 free_disk_bytes db sender sender_device envelopes now limits
      ≡ ok (db', r)
    → (usage_of sender db'.account_storage_usage ≤ limits.max_account_ciphertext_bytes)
      × (total_usage db'.account_storage_usage ≤ limits.max_total_ciphertext_bytes)
store_envelopes_usage sha256 disk db sender sender_device envelopes now limits db' r a t h =
    let s =
      store_envelopes_steps sha256 disk db sender sender_device envelopes now limits db' r h in
    omega (
      arith,
      check_quota_lem s.claimed sender s.additional limits a t s.within,
      additional_bytes-fresh_bytes s.claimed 0 _ s.additional s.counted,
      store_all-usage sender sender_device now s.claimed _ db' r s.stores,
    )

sent_bytes-select :
    (a : Text) (es : List EnvelopeRow)
    → sum_of ciphertext_length (select (λ e. e.sender_account_id == a) es) ≡ sent_bytes a es
unfolding sent_bytes sum_of select
sent_bytes-select a [] = refl
sent_bytes-select a (e ∷ es) = ground (arith, sent_bytes-select a es)

sent_bytes-delete_own :
    (a : Text) (es : List EnvelopeRow)
    → sent_bytes a (delete (λ e. e.sender_account_id == a) es) ≡ 0
unfolding sent_bytes sum_of select delete
sent_bytes-delete_own a [] = refl
sent_bytes-delete_own a (e ∷ es) = ground (arith, sent_bytes-delete_own a es)

-- Where no account sent a byte, there is none.
nothing_sent :
    (es : List EnvelopeRow) → ((a : Text) → sent_bytes a es ≤ 0) → sum_of ciphertext_length es ≤ 0
unfolding sent_bytes sum_of
nothing_sent [] h = omega arith
nothing_sent (e ∷ es) h =
    let own = h e.sender_account_id in
    ground (arith, own, ==_refl e.sender_account_id, nothing_sent es (λ a. ground (arith, h a)))

-- Where each account has a row for at least what it sent, the table bounds what all of them sent:
-- the envelopes of the first row's account are within that row, and the rest within the others.
stored_le_total_usage :
    (rows : List UsageRow) (es : List EnvelopeRow)
    → ((a : Text) → sent_bytes a es ≤ usage_of a rows)
    → sum_of ciphertext_length es ≤ total_usage rows
unfolding usage_of total_usage sum_of
stored_le_total_usage [] es h = omega (arith, nothing_sent es h)
stored_le_total_usage (row ∷ rows) es h =
    let own : EnvelopeRow → Bool = λ e. e.sender_account_id == row.account_id in
    let others : (a : Text) → sent_bytes a (delete own es) ≤ usage_of a rows = λ a.
      elim (Bool-cases (row.account_id == a)) [
        | inl same ↦
            subst (λ (x : Text). sent_bytes x (delete own es) ≤ usage_of x rows)
              (==_sound row.account_id a same)
              (omega (arith, sent_bytes-delete_own row.account_id es))
        | inr other ↦ ground (arith, h a, other, sent_bytes-delete a own es)
      ] in
    ground (
      arith,
      h row.account_id,
      ==_refl row.account_id,
      sent_bytes-select row.account_id es,
      sum_of-delete ciphertext_length own es,
      stored_le_total_usage rows (delete own es) others,
    )

-- On consistent tables, after an accepted batch the ciphertext that is stored of the sender, and
-- that of all accounts together, is within its limit, provided the limits are below the saturation
-- of `u64`.
pub store_envelopes_within_quota :
    (sha256 : Bytes → Bytes) (free_disk_bytes : ℕ) (db : Db) (sender sender_device : Text)
    (envelopes : List EncryptedEnvelope) (now : ℕ) (limits : StorageLimits) (db' : Db)
    (r : List (Text × ℕ))
    → IsConsistent db
    → limits.max_account_ciphertext_bytes < u64_max
    → limits.max_total_ciphertext_bytes < u64_max
    → store_envelopes sha256 free_disk_bytes db sender sender_device envelopes now limits
      ≡ ok (db', r)
    → (sent_bytes sender db'.envelopes ≤ limits.max_account_ciphertext_bytes)
      × (sum_of ciphertext_length db'.envelopes ≤ limits.max_total_ciphertext_bytes)
store_envelopes_within_quota sha256 disk db sender sender_device envelopes now limits db' r w a t
      h =
    let v =
      store_envelopes-IsConsistent sha256 disk db sender sender_device envelopes now limits db' r w
        h in
    let (own, all) =
      store_envelopes_usage sha256 disk db sender sender_device envelopes now limits db' r a t h in
    (
      omega (arith, v.accounted sender, own),
      omega (
        arith,
        stored_le_total_usage db'.account_storage_usage db'.envelopes
            (λ x. omega (arith, v.accounted x)),
        all,
      ),
    )
