-- ===== src/Server/Db/Store.antt =====
-- `Db::store_envelopes` in crates/server/src/db.rs. Disk space is an argument, SHA-256 a parameter.
pub mod Consistency
pub mod Quota
pub mod Immutable
pub mod Retry
use tui_chat.Base.{
  ℕ, suc, ◌+◌, ◌-◌, ◌^◌, ltb, Bool, not, ◌&&◌, ◌||◌, List, [], ◌∷◌, ◌++◌, none, some, Result, ok,
  err, storage, account_quota, total_quota, disk_pressure, message, constraint, ◌>>=◌, ◌>>◌,
  bail_if, ok_or, if◌then◌else◌, ◌==◌, ◌!=◌, list_eq, nat_eq, length, find, select, any, count,
  unwrap_or, sum_of, first,
}
use tui_chat.Base.Text.{Bytes, Text, text}
use tui_chat.Base.Int.{ℤ, int_eq}
use tui_chat.Protocol.Messages.{EncryptedEnvelope}
use tui_chat.Protocol.Payload.{conversation_id, max_frame_bytes}
use tui_chat.Server.Db.Rows.{
  Account, DeviceRow, LogicalRow, EnvelopeRow, Db, StorageLimits, add_usage, usage_of, total_usage,
}
use tui_chat.Server.Db.Devices.{is_device, is_active, has_account, has_device}
use tui_chat.Server.Db.Batch.{Batch, peers_of, is_bad_envelope, check_batch}

abbrev pub u64_max : ℕ
u64_max = 2 ^ 64 - 1

abbrev pub saturating_add : ℕ → ℕ → ℕ
saturating_add a b = if ltb u64_max (a + b) then u64_max else a + b

abbrev pub is_logical : Text → LogicalRow → Bool
is_logical id m = m.logical_message_id == id

-- `INSERT OR IGNORE INTO logical_messages`, with its foreign keys.
unfoldable pub insert_logical : Db → LogicalRow → Result Db
insert_logical db row =
    if any (is_logical row.logical_message_id) db.logical_messages
    then ok db
    else if has_account db row.sender_account_id
        && has_device db row.sender_device_id
        && has_account db row.peer_account_id
    then ok (record db { logical_messages = db.logical_messages ++ (row ∷ []) })
    else err constraint

unfoldable pub is_same_logical : LogicalRow → LogicalRow → Bool
is_same_logical old new =
    old.sender_account_id == new.sender_account_id
    && (old.sender_device_id == new.sender_device_id
        && (old.peer_account_id == new.peer_account_id
            && (old.conversation_id == new.conversation_id
                && old.client_sent_at_ms == new.client_sent_at_ms)))

-- The count of the join of `devices` with the active accounts.
unfoldable pub active_count : List Account → List DeviceRow → EncryptedEnvelope → ℕ
active_count accounts devices e =
    sum_of
      (λ d.
        if is_device e.recipient_account_id e.recipient_device_id d && is_active d
        then count (λ a. a.id == d.account_id && a.state == text "active") accounts
        else 0)
      devices

unfoldable pub active_envelopes : Db → List EncryptedEnvelope → List EncryptedEnvelope
active_envelopes db = select (λ e. active_count db.accounts db.devices e == 1)

abbrev pub has_id : Text → EnvelopeRow → Bool
has_id id row = row.envelope.envelope_id == id

-- One round of the loop that adds up `additional_bytes`.
unfoldable pub add_bytes : Db → ℕ → EncryptedEnvelope → Result ℕ
add_bytes db acc e = elim (find (has_id e.envelope_id) db.envelopes) [
  | some row ↦
      if row.envelope.ciphertext == e.ciphertext
      then ok acc
      else err (message "envelope id conflicts with immutable metadata")
  | none ↦
      if ltb u64_max (acc + length e.ciphertext)
      then err (message "ciphertext size overflow")
      else ok (acc + length e.ciphertext)
]

unfoldable pub additional_bytes : Db → ℕ → List EncryptedEnvelope → Result ℕ
additional_bytes db acc [] = ok acc
additional_bytes db acc (e ∷ es) = do acc' ← add_bytes db acc e; additional_bytes db acc' es

unfoldable pub check_quota : Db → Text → ℕ → StorageLimits → Result (Unit {0})
check_quota db sender additional limits = do
  bail_if
      (ltb limits.max_account_ciphertext_bytes
        (saturating_add (usage_of sender db.account_storage_usage) additional))
      (storage account_quota)
  bail_if
      (ltb limits.max_total_ciphertext_bytes
        (saturating_add (total_usage db.account_storage_usage) additional))
      (storage total_quota)

abbrev pub new_row : Db → Text → Text → ℕ → EncryptedEnvelope → EnvelopeRow
new_row db sender sender_device now e = record {
  cursor = suc db.envelope_seq;
  sender_account_id = sender;
  sender_device_id = sender_device;
  envelope = e;
  accepted_at_ms = now;
  delivered_at_ms = none;
}

-- The new row, and the trigger on usage.
unfoldable pub with_envelope : Db → Text → Text → ℕ → EncryptedEnvelope → Db
with_envelope db sender sender_device now e = record db {
  envelopes = db.envelopes ++ (new_row db sender sender_device now e ∷ []);
  envelope_seq = suc db.envelope_seq;
  account_storage_usage = add_usage sender (length e.ciphertext) db.account_storage_usage;
}

-- What an insertion that is ignored leaves: the AUTOINCREMENT key that was drawn for it is used up.
unfoldable pub skip_cursor : Db → Db
skip_cursor db = record db { envelope_seq = suc db.envelope_seq }

-- `INSERT OR IGNORE INTO envelopes`, with its foreign keys.
unfoldable pub insert_envelope : Db → Text → Text → ℕ → EncryptedEnvelope → Result Db
unfolding with_envelope skip_cursor
insert_envelope db sender sender_device now e =
    if any (has_id e.envelope_id) db.envelopes
    then ok (skip_cursor db)
    else if any (is_logical e.logical_message_id) db.logical_messages
        && (has_account db sender
            && (has_device db sender_device
                && (has_account db e.recipient_account_id && has_device db e.recipient_device_id)))
    then ok (with_envelope db sender sender_device now e)
    else err constraint

-- The comparison of the persisted row; its envelope id is the one that it was read by.
unfoldable pub is_same_envelope : Text → Text → EncryptedEnvelope → EnvelopeRow → Bool
is_same_envelope sender sender_device e row =
    p.logical_message_id == e.logical_message_id
    && (row.sender_account_id == sender
        && (row.sender_device_id == sender_device
            && (p.recipient_account_id == e.recipient_account_id
                && (p.recipient_device_id == e.recipient_device_id
                    && (p.conversation_id == e.conversation_id
                        && (p.ciphertext == e.ciphertext
                            && (p.olm_message_type == e.olm_message_type
                                && p.client_sent_at_ms == e.client_sent_at_ms)))))))
  where
    open row use {envelope as p}

-- One round of the loop that stores the envelopes.
unfoldable pub store_one : Text → Text → ℕ → Db → EncryptedEnvelope → Result (Db × (Text × ℕ))
store_one sender sender_device now db e = do
  db' ← insert_envelope db sender sender_device now e
  row ← ok_or (find (has_id e.envelope_id) db'.envelopes) constraint
  bail_if (not (is_same_envelope sender sender_device e row))
      (message "envelope id conflicts with immutable metadata")
  ok (db', (e.recipient_device_id, row.cursor))

unfoldable pub store_all :
    Text → Text → ℕ → Db → List EncryptedEnvelope → Result (Db × List (Text × ℕ))
store_all sender sender_device now db [] = ok (db, [])
store_all sender sender_device now db (e ∷ es) = do
  (db1, stored) ← store_one sender sender_device now db e
  (db2, rest) ← store_all sender sender_device now db1 es
  ok (db2, stored ∷ rest)

-- The guard on the active envelopes.
unfoldable pub is_unavailable : Text → Text → List EncryptedEnvelope → Bool
is_unavailable sender peer active =
    length active == 0 || peer != sender && not (any (λ e. e.recipient_account_id == peer) active)

unfoldable pub logical_row : Text → Text → Batch → ℕ → LogicalRow
logical_row sender sender_device batch now = record {
  logical_message_id = batch.logical;
  sender_account_id = sender;
  sender_device_id = sender_device;
  peer_account_id = batch.peer;
  conversation_id = batch.conversation;
  client_sent_at_ms = batch.client_sent_at_ms;
  accepted_at_ms = now;
  delivered_at_ms = none;
}

-- The insertion of the logical message and the check of the row that is there.
unfoldable pub claim_logical : Db → LogicalRow → Result Db
claim_logical db row = do
  db' ← insert_logical db row
  old ← ok_or (find (is_logical row.logical_message_id) db'.logical_messages) constraint
  bail_if (not (is_same_logical old row))
      (message "logical message id conflicts with immutable metadata")
  ok db'

-- The transaction behind the checks of the batch.
unfoldable pub store_batch :
    Text
    → Text
    → ℕ
    → StorageLimits
    → Batch
    → List EncryptedEnvelope
    → Db
    → Result (Db × List (Text × ℕ))
store_batch sender sender_device now limits batch envelopes db = do
  db' ← claim_logical db (logical_row sender sender_device batch now)
  let active = active_envelopes db' envelopes
  bail_if (is_unavailable sender batch.peer active) (message "recipient device is unavailable")
  additional ← additional_bytes db' 0 active
  check_quota db' sender additional limits
  store_all sender sender_device now db' active

-- An error rolls the transaction back: the caller keeps its `Db`.
unfoldable pub store_envelopes :
    (Bytes → Bytes)
    → ℕ
    → Db
    → Text
    → Text
    → List EncryptedEnvelope
    → ℕ
    → StorageLimits
    → Result (Db × List (Text × ℕ))
store_envelopes sha256 free_disk_bytes db sender sender_device envelopes now limits = do
  batch ← check_batch sha256 sender envelopes
  bail_if (ltb free_disk_bytes limits.min_free_disk_bytes) (storage disk_pressure)
  store_batch sender sender_device now limits batch envelopes db
