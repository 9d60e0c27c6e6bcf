-- ===== src/Server/Db/Pairing.antt =====
-- Pairing events and the audit log in crates/server/src/db.rs.
pub mod Events
use tui_chat.Base.{
  ℕ, suc, ltb, leb, Bool, ◌&&◌, List, [], ◌∷◌, ◌++◌, Result, ok, err, constraint, if◌then◌else◌,
  ◌==◌, list_eq, nat_eq, select, count, delete, take,
}
use tui_chat.Base.Text.{Bytes, Text}
use tui_chat.Base.Int.{ℤ, pos, ltb_ℤ, as_i64, int_eq}
use tui_chat.Server.Db.Rows.{PairingRow, AuditRow, Db}
use tui_chat.Server.Db.Devices.{has_device}

-- The new id. The devices are foreign keys.
unfoldable pub insert_pairing_event : Db → Text → Text → Text → Text → Bytes → ℕ → Result (Db × ℕ)
insert_pairing_event db pairing sender target event_type payload expires_at_ms =
    if has_device db sender && has_device db target
    then ok (
      record db {
        pairing_events =
            db.pairing_events
            ++ (record {
              id = suc db.pairing_seq;
              pairing_id = pairing;
              sender_device_id = sender;
              target_device_id = target;
              event_type = event_type;
              payload = payload;
              expires_at_ms = expires_at_ms;
            }
                ∷ []);
        pairing_seq = suc db.pairing_seq;
      },
      suc db.pairing_seq,
    )
    else err constraint

unfoldable pub is_pending_event : Text → ℕ → PairingRow → Bool
is_pending_event target now p = p.target_device_id == target && ltb now p.expires_at_ms

unfoldable pub pending_pairing_events : Db → Text → ℕ → List PairingRow
pending_pairing_events db target now =
    take 200 (select (is_pending_event target now) db.pairing_events)

abbrev pub is_event : Text → ℕ → PairingRow → Bool
is_event target event p = pos p.id == as_i64 event && p.target_device_id == target

unfoldable pub ack_pairing_event : Db → Text → ℕ → Db × Bool
ack_pairing_event db target event = (
  record db { pairing_events = delete (is_event target event) db.pairing_events },
  count (is_event target event) db.pairing_events == 1,
)

unfoldable pub cleanup_expired_pairing_events : Db → ℕ → Db × ℕ
cleanup_expired_pairing_events db now = (
  record db { pairing_events = delete (λ p. leb p.expires_at_ms now) db.pairing_events },
  count (λ p. leb p.expires_at_ms now) db.pairing_events,
)

unfoldable pub audit : Db → AuditRow → Db
audit db row = record db { audit_events = db.audit_events ++ (row ∷ []) }

unfoldable pub cleanup_audit : Db → ℤ → Db × ℕ
cleanup_audit db before = (
  record db { audit_events = delete (λ a. ltb_ℤ (pos a.occurred_at_ms) before) db.audit_events },
  count (λ a. ltb_ℤ (pos a.occurred_at_ms) before) db.audit_events,
)
