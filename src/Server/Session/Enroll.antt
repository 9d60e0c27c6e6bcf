-- ===== src/Server/Session/Enroll.antt =====
-- The handlers of BootstrapDevice and ChangePassword in crates/server/src/ws.rs.
use tui_chat.Base.{
  ℕ, ltb, leb, Bool, true, false, not, ◌&&◌, ◌||◌, [], some, message, if◌then◌else◌, ◌==◌, ◌!=◌,
  list_eq, nat_eq, bool_eq, option_eq, length, is_some,
}
use tui_chat.Base.Text.{Text, text, char_count}
use tui_chat.Base.Int.{int_eq}
use tui_chat.Protocol.Messages.{DeviceBundle}
use tui_chat.Protocol.Frames.{Body, BootstrapDevice, ChangePassword, pairing_request}
use tui_chat.Server.Accounts.{validate_password}
use tui_chat.Server.Db.Devices.{
  device, has_active_devices, device_counts, insert_device, bootstrap_master, set_password,
}
use tui_chat.Server.Db.Prekeys.{publish_prekeys}
use tui_chat.Server.Live.{push_account}
use tui_chat.Server.Context.{
  Session, Host, Handler, ◌>>=◌, ◌>>◌, lift, gets, need, reject_if, on_live, on_db, commit,
  set_session,
}
use tui_chat.Server.Session.{
  valid_uuid, verify_device_certificate, hash_password, verify_password, active_session,
  send_authenticated, register_session, write_audit,
}

unfoldable pub is_bad_bootstrap : Host → BootstrapDevice → Bool
is_bad_bootstrap host b =
    not (valid_uuid host b.device_id)
    || host.is_blank b.device_name
    || ltb 64 (char_count b.device_name)
    || length b.auth_signing_key != 32
    || length b.olm_ed25519_key != 32
    || length b.olm_curve25519_key != 32
    || length b.account_master_key != 32
    || length b.sas_public_key != 32
    || ltb 100 (length b.one_time_keys)

unfoldable pub bootstrap_bundle : BootstrapDevice → DeviceBundle
bootstrap_bundle b = record {
  device_id = b.device_id;
  device_name = b.device_name;
  auth_signing_key = b.auth_signing_key;
  olm_ed25519_key = b.olm_ed25519_key;
  olm_curve25519_key = b.olm_curve25519_key;
  certificate_signature = b.certificate_signature;
  revoked = false;
}

abbrev insert_new_device : Host → Session → BootstrapDevice → Bool → Handler (Unit {0})
insert_new_device host session b pending = do
  commit (λ db.
      insert_device db session.account.id (bootstrap_bundle b) b.sas_public_key pending host.now)
  commit (λ db. publish_prekeys db session.device_id b.one_time_keys host.now)

-- The first device of an account brings the master key.
unfoldable pub bootstrap_first :
    Host → Text → Session → BootstrapDevice → ℕ → ℕ → Handler (Unit {0})
bootstrap_first host id session b active pending = do
  reject_if (active != 0 || pending != 0) (message "account device state is inconsistent")
  lift (verify_device_certificate host b.account_master_key session.account.id (bootstrap_bundle b))
  commit (λ db. bootstrap_master db session.account.id b.account_master_key)
  insert_new_device host session b false
  let session' : Session = record session {
    account = record (session.account) {
      master_public_key = some b.account_master_key;
      roster_revision = 1;
    };
    pending = false;
    password_change_required = session.account.require_password_change;
  }
  set_session session'
  register_session host session'
  send_authenticated host id session'

unfoldable pub pairing_of : Session → BootstrapDevice → Body
pairing_of session b = pairing_request (record {
  pairing_id = session.device_id;
  pending_device_id = session.device_id;
  pending_device_name = b.device_name;
  sas_public_key = b.sas_public_key;
  pending_device = bootstrap_bundle b;
})

-- A further device waits for the approval of one that is there.
unfoldable pub bootstrap_further :
    Host → Text → Session → BootstrapDevice → ℕ → ℕ → Handler (Unit {0})
bootstrap_further host id session b active pending = do
  reject_if (leb 8 active || leb 2 pending) (message "account device limit reached")
  reject_if (session.account.master_public_key != some b.account_master_key)
      (message "account identity mismatch")
  reject_if (length b.certificate_signature != 0)
      (message "pending device certificate must be issued by an existing device")
  insert_new_device host session b true
  register_session host session
  on_live (push_account session.account.id (record { id = []; body = some (pairing_of session b) }))
  send_authenticated host id session

unfoldable pub handle_bootstrap_device : Host → Text → BootstrapDevice → Handler (Unit {0})
handle_bootstrap_device host id b = do
  slot ← gets (λ s. s.session)
  session ← need slot (message "password authentication required")
  reject_if (not session.pending || b.device_id != session.device_id)
      (message "invalid bootstrap state")
  db ← gets (λ s. s.db)
  reject_if (is_some (device db session.account.id session.device_id))
      (message "device was already submitted")
  reject_if (is_bad_bootstrap host b) (message "invalid public key length")
  let (active, pending) = device_counts db session.account.id
  if not (has_active_devices db session.account.id)
        && not (is_some session.account.master_public_key)
      then bootstrap_first host id session b active pending
      else bootstrap_further host id session b active pending

unfoldable pub handle_change_password : Host → Text → ChangePassword → Handler (Unit {0})
handle_change_password host id change = do
  session ← active_session
  reject_if (length change.current_password == 0 || ltb 1024 (length change.current_password))
      (message "current password is incorrect")
  lift (validate_password change.new_password)
  reject_if (not (verify_password host session.account.password_phc change.current_password).valid)
      (message "current password is incorrect")
  phc ← lift (hash_password host change.new_password)
  on_db (λ db. set_password db session.account.id phc false)
  let session' : Session = record session {
    account = record (session.account) { password_phc = phc; require_password_change = false };
    password_change_required = false;
  }
  set_session session'
  write_audit host (text "auth") session.account.username (text "password_change") session.device_id
      (text "success") []
  send_authenticated host id session'
