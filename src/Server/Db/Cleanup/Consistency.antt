-- ===== src/Server/Db/Cleanup/Consistency.antt =====
-- The clean-ups and the revocation of crates/server/src/db.rs and the consistency of the tables.
use tui_chat.Base.{
  ℕ, inl, inr, Bool, not, ◌&&◌, List, ◌==◌, list_eq, nat_eq, select, delete, count, arith,
  Bool-cases,
}
use tui_chat.Server.Db.Devices.{is_device}
use tui_chat.Base.Text.{Text}
use tui_chat.Base.Int.{ℤ, int_eq}
use tui_chat.Base.Order.{Increasing-select}
use tui_chat.Server.Db.Rows.{DeviceRow, PrekeyRow, EnvelopeRow, Db}
use tui_chat.Server.Db.Usage.{sent_bytes-delete, usage_of-release_all}
use tui_chat.Server.Db.Consistent.{UniqueIds-select, IsConsistent}
use tui_chat.Server.Db.Cleanup.{
  delete_orphans, delete_envelopes, cleanup_delivered_envelopes, cleanup_revoked_device,
  mark_revoked, revoke_own_device, is_for_device, is_expired, cleanup_limit,
}

pub delete_envelopes-IsConsistent :
    (p : EnvelopeRow → Bool) (db : Db) → IsConsistent db → IsConsistent (delete_envelopes p db)
unfolding delete_envelopes delete
delete_envelopes-IsConsistent p db v = record {
  accounted = λ a. omega (
    arith,
    v.accounted a,
    usage_of-release_all a (select p db.envelopes) db.account_storage_usage,
    sent_bytes-delete a p db.envelopes,
  );
  unique = UniqueIds-select _ db.envelopes v.unique;
  ordered = Increasing-select _ 0 _ _ db.envelopes v.ordered;
  updates_ordered = v.updates_ordered;
}

pub delete_orphans-IsConsistent : (db : Db) → IsConsistent db → IsConsistent (delete_orphans db)
unfolding delete_orphans delete
delete_orphans-IsConsistent db v = record {
  accounted = v.accounted;
  unique = v.unique;
  ordered = v.ordered;
  updates_ordered = Increasing-select _ 0 _ _ db.delivery_updates v.updates_ordered;
}

-- Removing delivered envelopes keeps the usage table exact, the ids unique and the cursors rising.
pub cleanup_delivered_envelopes-IsConsistent :
    (db : Db) (before : ℤ) (limit : ℕ)
    → IsConsistent db
    → IsConsistent (cleanup_delivered_envelopes db before limit).0
unfolding cleanup_delivered_envelopes
cleanup_delivered_envelopes-IsConsistent db before limit v =
    delete_orphans-IsConsistent _
      (delete_envelopes-IsConsistent (is_expired db before (cleanup_limit limit)) db v)

keyless-IsConsistent :
    (db : Db) (keys : List PrekeyRow) (devices : List DeviceRow)
    → IsConsistent db
    → IsConsistent (record db { prekeys = keys; devices = devices })
keyless-IsConsistent db keys devices v = record {
  accounted = v.accounted;
  unique = v.unique;
  ordered = v.ordered;
  updates_ordered = v.updates_ordered;
}

pub cleanup_revoked_device-IsConsistent :
    (db : Db) (id : Text) → IsConsistent db → IsConsistent (cleanup_revoked_device db id).0
unfolding cleanup_revoked_device
cleanup_revoked_device-IsConsistent db id v = delete_orphans-IsConsistent _ (
    delete_envelopes-IsConsistent (is_for_device id) _
      (keyless-IsConsistent db (delete (λ k. k.device_id == id) db.prekeys) db.devices v))

-- The revocation of a device keeps the usage table exact, the ids unique and the cursors rising,
-- whether it finds a device or not.
pub revoke_own_device-IsConsistent :
    (db : Db) (account id : Text)
    → IsConsistent db
    → IsConsistent (revoke_own_device db account id).0
unfolding revoke_own_device mark_revoked
revoke_own_device-IsConsistent db account id v =
    let marked : IsConsistent (mark_revoked db account id) =
      keyless-IsConsistent db db.prekeys _ v in
    elim (Bool-cases
      (count (λ d. is_device account id d && not d.bundle.revoked) db.devices == 1)) [
        | inl one ↦ rw one (cleanup_revoked_device-IsConsistent _ id marked)
        | inr other ↦ rw other marked
      ]
