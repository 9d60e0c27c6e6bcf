-- ===== src/Server/Db/Tests.antt =====
-- Runs of the database operations, and the theorems on them at concrete data.
use tui_chat.Base.{
  ◌+◌, ◌≡◌, refl, true, false, [], ◌∷◌, none, some, ok, err, storage, account_quota, arith, list_eq,
  nat_eq, find, sum_of, All, ◌==◌, ◌≤◌, ◌<◌, length, not, ◌&&◌, select, any, count,
}
use tui_chat.Server.Db.Delivery.Reach.{is_copy, store_envelopes-queued}
use tui_chat.Base.Text.{text}
use tui_chat.Base.Int.{pos, int_eq, as_i64}
use tui_chat.Protocol.Payload.{conversation_id, hex_string, text_le}
use tui_chat.Server.Db.Rows.{add_usage, usage_of, total_usage, ciphertext_length}
use tui_chat.Server.Db.Usage.{sent_bytes}
use tui_chat.Server.Db.Devices.{is_device}
use tui_chat.Server.Db.Consistent.{IsConsistent}
use tui_chat.Server.Db.Batch.{check_batch}
use tui_chat.Server.Db.Store.{
  has_id, insert_logical, is_same_logical, active_count, active_envelopes, add_bytes,
  additional_bytes, check_quota, insert_envelope, is_same_envelope, store_one, store_all,
  is_unavailable, logical_row, claim_logical, store_batch, store_envelopes,
}
use tui_chat.Server.Db.Store.Quota.{store_envelopes_within_quota}
use tui_chat.Server.Db.Store.Retry.{store_envelopes_retry}
use tui_chat.Server.Db.Store.Consistency.{store_envelopes-IsConsistent}
use tui_chat.Server.Db.Store.Immutable.{AllPersisted, store_envelopes-AllPersisted}
use tui_chat.Server.Db.Delivery.{joined, stored_row, ack, queued, is_addressed, is_queued}
use tui_chat.Server.Db.Delivery.Acknowledge.{ack_delivers, ack_refuses, is_update}
use tui_chat.Server.Db.Delivery.Paging.{drain, drain-queued}
use tui_chat.Server.Db.Cleanup.{cleanup_delivered_envelopes, revoke_own_device}
use tui_chat.Server.Db.Cleanup.Retention.{cleanup_delivered_envelopes_keeps}
use tui_chat.Server.Db.Cleanup.Revocation.{IsCutOff, revoke_own_device-IsCutOff}
use tui_chat.Server.Db.Samples.{
  alice, bob, phone, laptop, db0, db0-IsConsistent, digest, envelope, limits, sent, sent_row,
}

sent_lem :
    store_envelopes digest 2 db0 alice phone (envelope ∷ []) 6 limits ≡ ok (sent, (laptop, 1) ∷ [])
unfolding store_envelopes check_batch store_batch claim_logical insert_logical is_same_logical
    active_envelopes active_count is_unavailable additional_bytes add_bytes check_quota store_all
    store_one insert_envelope is_same_envelope logical_row conversation_id hex_string text_le
    list_eq nat_eq int_eq add_usage usage_of total_usage any text find select sum_of count
sent_lem = refl

-- The account's limit is 4 bytes and 3 are stored.
over_quota :
    store_envelopes digest 2 sent alice phone
      (record envelope { envelope_id = 32 ∷ [] } ∷ [])
      6
      limits
    ≡ err (storage account_quota)
unfolding store_envelopes check_batch store_batch claim_logical insert_logical is_same_logical
    active_envelopes active_count is_unavailable additional_bytes add_bytes check_quota store_all
    store_one insert_envelope is_same_envelope logical_row conversation_id hex_string text_le
    list_eq nat_eq int_eq add_usage usage_of total_usage any text find select sum_of count
over_quota = refl

store_envelopes_within_quota_example :
    (sent_bytes alice sent.envelopes ≤ 4) × (sum_of ciphertext_length sent.envelopes ≤ 10)
store_envelopes_within_quota_example =
    store_envelopes_within_quota digest 2 db0 alice phone (envelope ∷ []) 6 limits sent
      ((laptop, 1) ∷ []) db0-IsConsistent (omega arith) (omega arith) sent_lem

store_envelopes_retry_example :
    store_envelopes digest 3 sent alice phone (envelope ∷ []) 60 limits
    ≡ ok (record sent { envelope_seq = sent.envelope_seq + 1 }, (laptop, 1) ∷ [])
store_envelopes_retry_example =
    store_envelopes_retry digest 2 3 db0 alice phone (envelope ∷ []) 6 60 limits sent
      ((laptop, 1) ∷ []) (omega arith) (omega arith) (omega arith) sent_lem

sent-IsConsistent : IsConsistent sent
sent-IsConsistent =
    store_envelopes-IsConsistent digest 2 db0 alice phone (envelope ∷ []) 6 limits sent
      ((laptop, 1) ∷ []) db0-IsConsistent sent_lem

store_envelopes-AllPersisted_example :
    AllPersisted alice phone sent (active_envelopes db0 (envelope ∷ [])) ((laptop, 1) ∷ [])
store_envelopes-AllPersisted_example =
    store_envelopes-AllPersisted digest 2 db0 alice phone (envelope ∷ []) 6 limits sent
      ((laptop, 1) ∷ []) sent_lem

found_sent : find (has_id (31 ∷ [])) sent.envelopes ≡ some (sent_row none)
unfolding find list_eq nat_eq
found_sent = refl

found_addressed : find (is_addressed laptop (31 ∷ [])) sent.envelopes ≡ some (sent_row none)
unfolding find list_eq nat_eq
found_addressed = refl

not_to_phone : ((sent_row none).envelope.recipient_device_id == phone) ≡ false
unfolding list_eq nat_eq
not_to_phone = refl

queued_two : length (queued sent laptop 0) < 2
unfolding queued joined stored_row is_queued as_i64 select find list_eq nat_eq
queued_two = omega arith

revoked_laptop : (revoke_own_device sent bob laptop).1 ≡ true
unfolding revoke_own_device count list_eq nat_eq
revoked_laptop = refl

not_own : any (λ d. is_device alice laptop d && not d.bundle.revoked) sent.devices ≡ false
unfolding any list_eq nat_eq
not_own = refl

alice_there : any (λ a. a.id == alice) sent.accounts ≡ true
unfolding any list_eq nat_eq
alice_there = refl

store_envelopes-queued_example :
    All
      (λ e. any (is_copy alice e) (queued sent e.recipient_device_id 0) ≡ true)
      (active_envelopes db0 (envelope ∷ []))
store_envelopes-queued_example =
    store_envelopes-queued digest 2 db0 alice phone (envelope ∷ []) 6 limits sent ((laptop, 1) ∷ [])
      db0-IsConsistent alice_there sent_lem

drain-queued_example : drain 2 sent bob laptop 0 0 100 ≡ queued sent laptop 0
drain-queued_example =
    drain-queued 2 sent bob laptop 0 0 100 sent-IsConsistent (omega arith) (omega arith) queued_two

ack_delivers_example :
    let (db, told) = ack sent laptop (31 ∷ []) 8 in
    (told ≡ some (alice, 41 ∷ []))
    × (find (is_addressed laptop (31 ∷ [])) db.envelopes ≡ some (sent_row (some 8)))
    × (any (is_update alice (41 ∷ [])) db.delivery_updates ≡ true)
ack_delivers_example = ack_delivers sent laptop (31 ∷ []) 8 (sent_row none) found_addressed

ack_refuses_example : ack sent phone (31 ∷ []) 8 ≡ (sent, none)
ack_refuses_example =
    ack_refuses sent phone (31 ∷ []) 8 (sent_row none) sent-IsConsistent found_sent not_to_phone

cleanup_delivered_envelopes_keeps_example :
    find (has_id (31 ∷ [])) (cleanup_delivered_envelopes sent (pos 9) 10).0.envelopes
    ≡ some (sent_row none)
cleanup_delivered_envelopes_keeps_example =
    cleanup_delivered_envelopes_keeps sent (pos 9) 10 (31 ∷ []) (sent_row none) sent-IsConsistent
      found_sent refl

revoke_own_device-IsCutOff_example : IsCutOff bob laptop (revoke_own_device sent bob laptop).0
revoke_own_device-IsCutOff_example = revoke_own_device-IsCutOff sent bob laptop revoked_laptop
