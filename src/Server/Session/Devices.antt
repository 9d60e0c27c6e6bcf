-- ===== src/Server/Session/Devices.antt =====
-- The handlers of crates/server/src/ws.rs for pairing and for the devices of an account.
use tui_chat.Base.{
  ℕ, ◌+◌, ◌*◌, ltb, Bool, true, false, not, ◌&&◌, ◌||◌, [], Option, none, some, message, ◌==◌, ◌!=◌,
  list_eq, nat_eq, bool_eq, option_eq, length, any, find,
}
use tui_chat.Base.Text.{Text, text, char_count}
use tui_chat.Base.Int.{int_eq}
use tui_chat.Protocol.Messages.{DeviceBundle}
use tui_chat.Protocol.Frames.{
  PairingEvent, ActivateDevice, pairing_event, own_device_list_frame, capability_own_devices,
}
use tui_chat.Server.Db.Rows.{Device}
use tui_chat.Server.Db.Devices.{device, device_bundles, device_account_any, activate_device}
use tui_chat.Server.Db.Cleanup.{revoke_own_device}
use tui_chat.Server.Db.Pairing.{insert_pairing_event, ack_pairing_event}
use tui_chat.Server.Live.{push_device, kick_device}
use tui_chat.Server.Context.{
  Session, Host, Handler, ◌>>=◌, ◌>>◌, lift, gets, need, reject_if, on_live, transact, run_db,
  commit,
}
use tui_chat.Server.Session.{
  send, valid_uuid, verify_device_certificate, verify_roster_signature, usable_session, write_audit,
}
use tui_chat.Server.Session.Push.{own_device_list}
use tui_chat.Server.Session.Relay.{ok_frame, confirm}

unfoldable pub is_event_type : Text → Bool
is_event_type t =
    t == text "sas_public"
    || t == text "sas_confirmed"
    || t == text "bootstrap"
    || t == text "history_chunk"
    || t == text "history_complete"

unfoldable pub is_bad_event : Host → PairingEvent → Bool
is_bad_event host e =
    e.server_event_id != 0
    || not (valid_uuid host e.pairing_id)
    || not (valid_uuid host e.target_device_id)
    || ltb (192 * 1024) (length e.payload)
    || not (is_event_type e.event_type)

abbrev is_waiting : Option Device → Bool
is_waiting found = elim found [ none ↦ false | some d ↦ d.pending && not d.revoked ]

unfoldable pub handle_pairing_event : Host → Text → PairingEvent → Handler (Unit {0})
handle_pairing_event host id event = do
  slot ← gets (λ s. s.session)
  session ← need slot (message "authentication required")
  reject_if (is_bad_event host event) (message "invalid pairing event")
  db ← gets (λ s. s.db)
  target ← need (device_account_any db event.target_device_id) (message "target device not found")
  reject_if (target != session.account.id) (message "pairing is restricted to the same account")
  reject_if (not (is_waiting (device db session.account.id event.pairing_id)))
      (message "pairing request is not active")
  reject_if (session.device_id != event.pairing_id && event.target_device_id != event.pairing_id)
      (message "pairing event is not bound to the pending device")
  event_id ← transact (λ db.
      insert_pairing_event db event.pairing_id session.device_id event.target_device_id
        event.event_type event.payload (host.now + host.pairing_ttl_seconds * 1000))
  db' ← gets (λ s. s.db)
  sender ←
      need
        (find (λ d. d.device_id == session.device_id) (device_bundles db' session.account.id true))
        (message "sender device not found")
  let forwarded : PairingEvent = record event {
    sender_device_id = session.device_id;
    sender_device_name = sender.device_name;
    server_event_id = event_id;
  }
  on_live (
      push_device event.target_device_id
        (record { id = []; body = some (pairing_event forwarded) }))
  confirm host id

unfoldable pub handle_ack_pairing_event : Host → Text → ℕ → Handler (Unit {0})
handle_ack_pairing_event host id event_id = do
  slot ← gets (λ s. s.session)
  session ← need slot (message "authentication required")
  reject_if (event_id == 0) (message "pairing event not found")
  done ← run_db (λ db. ack_pairing_event db session.device_id event_id)
  reject_if (not done) (message "pairing event not found")
  confirm host id

unfoldable pub is_bad_activation : Host → ActivateDevice → DeviceBundle → Bool
is_bad_activation host a bundle =
    not (valid_uuid host a.pairing_id)
    || not (valid_uuid host bundle.device_id)
    || a.pairing_id != bundle.device_id
    || ltb 64 (char_count bundle.device_name)
    || length bundle.auth_signing_key != 32
    || length bundle.olm_ed25519_key != 32
    || length bundle.olm_curve25519_key != 32
    || length bundle.certificate_signature != 64
    || length a.roster_signature != 64

unfoldable pub has_changed_keys : DeviceBundle → DeviceBundle → Bool
has_changed_keys pending bundle =
    pending.auth_signing_key != bundle.auth_signing_key
    || pending.olm_ed25519_key != bundle.olm_ed25519_key
    || pending.olm_curve25519_key != bundle.olm_curve25519_key

unfoldable pub handle_activate_device : Host → Text → ActivateDevice → Handler (Unit {0})
handle_activate_device host id activate = do
  session ← usable_session
  bundle ← need activate.device (message "missing device bundle")
  reject_if (is_bad_activation host activate bundle) (message "invalid device activation fields")
  db ← gets (λ s. s.db)
  pending ←
      need (find (λ d. d.device_id == bundle.device_id) (device_bundles db session.account.id true))
        (message "pending device not found")
  reject_if (has_changed_keys pending bundle) (message "pending device keys changed")
  master ← need session.account.master_public_key (message "account is not bootstrapped")
  lift (verify_device_certificate host master session.account.id bundle)
  lift (
      verify_roster_signature host master session.account.id activate.roster_revision
        bundle.device_id activate.roster_signature)
  commit (λ db.
      activate_device db session.account.id bundle.device_id activate.roster_revision
        bundle.certificate_signature)
  on_live (
      push_device bundle.device_id (record {
        id = [];
        body = some (
            pairing_event (record {
              pairing_id = activate.pairing_id;
              target_device_id = bundle.device_id;
              event_type = text "device_activated";
              payload = [];
              sender_device_id = session.device_id;
              server_event_id = 0;
              sender_device_name = [];
            }));
      }))
  ok_frame host id

abbrev require_own_devices : Session → Handler (Unit {0})
require_own_devices session =
    reject_if (not (any (λ c. c == capability_own_devices) session.capabilities))
      (message "client did not negotiate own device management")

unfoldable pub handle_list_own_devices : Host → Text → Handler (Unit {0})
handle_list_own_devices host id = do
  session ← usable_session
  require_own_devices session
  devices ← own_device_list session.account.id session.device_id
  send host id (own_device_list_frame devices)

unfoldable pub handle_revoke_own_device : Host → Text → Text → Handler (Unit {0})
handle_revoke_own_device host id target = do
  session ← usable_session
  require_own_devices session
  reject_if (not (valid_uuid host target)) (message "invalid device id")
  reject_if (target == session.device_id) (message "cannot revoke the current device")
  done ← run_db (λ db. revoke_own_device db session.account.id target)
  reject_if (not done) (message "device is not active or does not belong to this account")
  on_live (λ live. (kick_device host.is_open target (text "access_revoked") live).0)
  write_audit host (text "device") session.account.username (text "self_service_revoke") target
      (text "success") session.device_id
  devices ← own_device_list session.account.id session.device_id
  send host id (own_device_list_frame devices)
