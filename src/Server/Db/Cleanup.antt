-- ===== src/Server/Db/Cleanup.antt =====
-- What crates/server/src/db.rs deletes: delivered envelopes, and the data of revoked devices.
pub mod Consistency
pub mod Retention
pub mod Revocation
use tui_chat.Base.{
  ℕ, ◌-◌, ltb, Bool, true, false, not, ◌&&◌, List, none, some, if◌then◌else◌, ◌==◌, list_eq, nat_eq,
  length, select, any, update, count, delete, sum_of, take,
}
use tui_chat.Base.Text.{Text}
use tui_chat.Base.Int.{ℤ, pos, ltb_ℤ, int_eq}
use tui_chat.Server.Db.Rows.{EnvelopeRow, Db, CleanupStats, ciphertext_length, release_all}
use tui_chat.Server.Db.Devices.{is_device}

abbrev pub has_envelope : List EnvelopeRow → Text → Bool
has_envelope envelopes logical = any (λ e. e.envelope.logical_message_id == logical) envelopes

-- The statements that both clean-ups end with: what no envelope needs goes.
unfoldable pub delete_orphans : Db → Db
delete_orphans db = record db {
  delivery_updates =
      delete (λ u. not (has_envelope db.envelopes u.update.logical_message_id)) db.delivery_updates;
  logical_messages =
      delete (λ m. not (has_envelope db.envelopes m.logical_message_id)) db.logical_messages;
}

-- `DELETE FROM envelopes WHERE p`, with the trigger on usage.
unfoldable pub delete_envelopes : (EnvelopeRow → Bool) → Db → Db
delete_envelopes p db = record db {
  envelopes = delete p db.envelopes;
  account_storage_usage = release_all (select p db.envelopes) db.account_storage_usage;
}

unfoldable pub stats : List EnvelopeRow → Db → Db → CleanupStats
stats removed before after = record {
  envelopes = length removed;
  ciphertext_bytes = sum_of ciphertext_length removed;
  logical_messages = length before.logical_messages - length after.logical_messages;
  delivery_updates = length before.delivery_updates - length after.delivery_updates;
}

abbrev pub is_delivered_before : ℤ → EnvelopeRow → Bool
is_delivered_before before e = elim (e.delivered_at_ms) [
  | none ↦ false
  | some t ↦ ltb_ℤ (pos t) before
]

-- `cursor IN (SELECT cursor … ORDER BY cursor LIMIT ?)`
unfoldable pub is_expired : Db → ℤ → ℕ → EnvelopeRow → Bool
is_expired db before limit e =
    any (λ x. x.cursor == e.cursor) (take limit (select (is_delivered_before before) db.envelopes))

-- `limit.clamp(1, 10_000)`
abbrev pub cleanup_limit : ℕ → ℕ
cleanup_limit limit = if ltb limit 1 then 1 else if ltb 10000 limit then 10000 else limit

unfoldable pub cleanup_delivered_envelopes : Db → ℤ → ℕ → Db × CleanupStats
cleanup_delivered_envelopes db before limit =
    let p = is_expired db before (cleanup_limit limit) in
    let db' = delete_orphans (delete_envelopes p db) in (db', stats (select p db.envelopes) db db')

abbrev pub is_for_device : Text → EnvelopeRow → Bool
is_for_device id e = e.envelope.recipient_device_id == id

unfoldable pub cleanup_revoked_device : Db → Text → Db × CleanupStats
cleanup_revoked_device db id =
    let keyless = record db { prekeys = delete (λ k. k.device_id == id) db.prekeys } in
    let db' = delete_orphans (delete_envelopes (is_for_device id) keyless) in
    (db', stats (select (is_for_device id) db.envelopes) db db')

-- The `UPDATE` of `revoke_own_device`.
unfoldable pub mark_revoked : Db → Text → Text → Db
mark_revoked db account id = record db {
  devices =
      update (λ d. is_device account id d && not d.bundle.revoked)
        (λ d. record d { bundle = record (d.bundle) { revoked = true } }) db.devices;
}

unfoldable pub revoke_own_device : Db → Text → Text → Db × Bool
revoke_own_device db account id =
    if count (λ d. is_device account id d && not d.bundle.revoked) db.devices == 1
    then ((cleanup_revoked_device (mark_revoked db account id) id).0, true)
    else (mark_revoked db account id, false)
