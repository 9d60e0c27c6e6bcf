-- ===== src/Server/Db/Cleanup/Retention.antt =====
-- What the retention of delivered envelopes removes, and what it leaves.
use tui_chat.Base.{
  ℕ, ◌+◌, ◌≡◌, Bool, false, not, some, list_eq, nat_eq, length, find, any, delete, sum_of, arith,
}
use tui_chat.Base.Keyed.{any-take, find-delete_kept, any-select_rejected}
use tui_chat.Base.Text.{Text}
use tui_chat.Base.Int.{ℤ, int_eq}
use tui_chat.Base.Queries.{length-delete, sum_of-delete, any-delete_self}
use tui_chat.Server.Db.Rows.{EnvelopeRow, Db, ciphertext_length}
use tui_chat.Server.Db.Consistent.{IsConsistent}
use tui_chat.Server.Db.Store.{has_id}
use tui_chat.Server.Db.Cleanup.{
  has_envelope, delete_orphans, delete_envelopes, stats, cleanup_delivered_envelopes,
  is_delivered_before, is_expired, cleanup_limit,
}

is_expired_rejected :
    (db : Db) (before : ℤ) (limit : ℕ) (q : EnvelopeRow → Bool) (row : EnvelopeRow)
    → IsConsistent db
    → find q db.envelopes ≡ some row
    → is_delivered_before before row ≡ false
    → is_expired db before limit row ≡ false
unfolding is_expired
is_expired_rejected db before limit q row v found kept = any-take _ limit _ (
    any-select_rejected _ q (is_delivered_before before) 0 db.envelope_seq db.envelopes row
      v.ordered found kept)

-- On consistent tables, an envelope that is not delivered, or was delivered at the cut-off or
-- later, stays as it is when delivered envelopes are cleaned up.
pub cleanup_delivered_envelopes_keeps :
    (db : Db) (before : ℤ) (limit : ℕ) (id : Text) (row : EnvelopeRow)
    → IsConsistent db
    → find (has_id id) db.envelopes ≡ some row
    → is_delivered_before before row ≡ false
    → find (has_id id) (cleanup_delivered_envelopes db before limit).0.envelopes ≡ some row
unfolding cleanup_delivered_envelopes delete_orphans delete_envelopes
cleanup_delivered_envelopes_keeps db before limit id row v found kept =
    find-delete_kept (has_id id) _ db.envelopes row found
      (is_expired_rejected db before (cleanup_limit limit) (has_id id) row v found kept)

-- No logical message and no delivery update is left without an envelope.
abbrev pub HasNoOrphans : Db → Type 0
HasNoOrphans db =
    (any (λ m. not (has_envelope db.envelopes m.logical_message_id)) db.logical_messages ≡ false)
    × (any (λ u. not (has_envelope db.envelopes u.update.logical_message_id)) db.delivery_updates
        ≡ false)

pub delete_orphans-HasNoOrphans : (db : Db) → HasNoOrphans (delete_orphans db)
unfolding delete_orphans
delete_orphans-HasNoOrphans db =
    (any-delete_self _ db.logical_messages, any-delete_self _ db.delivery_updates)

-- The numbers that a clean-up reports are those of the rows and of the ciphertext that are gone,
-- and it leaves no logical message and no delivery update without an envelope.
pub cleanup_delivered_envelopes-stats :
    (db : Db) (before : ℤ) (limit : ℕ)
    → let (db', stats) = cleanup_delivered_envelopes db before limit in
      (length db.envelopes ≡ length db'.envelopes + stats.envelopes)
      × (sum_of ciphertext_length db.envelopes
          ≡ sum_of ciphertext_length db'.envelopes + stats.ciphertext_bytes)
      × (length db.logical_messages ≡ length db'.logical_messages + stats.logical_messages)
      × (length db.delivery_updates ≡ length db'.delivery_updates + stats.delivery_updates)
      × HasNoOrphans db'
unfolding cleanup_delivered_envelopes delete_orphans delete_envelopes stats
cleanup_delivered_envelopes-stats db before limit =
    let p = is_expired db before (cleanup_limit limit) in
    let kept = delete p db.envelopes in
    (
      omega (arith, length-delete p db.envelopes),
      omega (arith, sum_of-delete ciphertext_length p db.envelopes),
      omega (
        arith,
        length-delete (λ m. not (has_envelope kept m.logical_message_id)) db.logical_messages,
      ),
      omega (
        arith,
        length-delete (λ u. not (has_envelope kept u.update.logical_message_id))
            db.delivery_updates,
      ),
      delete_orphans-HasNoOrphans (delete_envelopes p db),
    )
