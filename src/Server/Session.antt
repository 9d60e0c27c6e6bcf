-- ===== src/Server/Session.antt =====
-- The helpers of the request handlers in crates/server/src/ws.rs.
pub mod Push
pub mod Auth
pub mod Password
pub mod Enroll
pub mod Relay
pub mod Devices
pub mod Handle
pub mod Gate
pub mod Keeps
pub mod Sound
pub mod Trust
pub mod Once
use tui_chat.Base.{
  ℕ, ◌+◌, ltb, Bool, true, false, not, ◌&&◌, ◌||◌, List, [], ◌∷◌, ◌++◌, map, Option, none, some,
  Result, ok, err, Error, message, if◌then◌else◌, ◌==◌, ◌!=◌, list_eq, nat_eq, bool_eq, length, any,
  is_some, unwrap_or, find, sort_by,
}
use tui_chat.Base.Text.{Bytes, Text, text}
use tui_chat.Base.Maps.{get, insert}
use tui_chat.Protocol.Messages.{DeviceBundle, OneTimeKey, OwnDeviceInfo}
use tui_chat.Protocol.Frames.{
  Frame, Body, authenticated, Authenticated, BootstrapMode, mode_none, first_device, pending_device,
  pairing_event, pairing_request, capability_own_devices, capability_stable_errors,
}
use tui_chat.Protocol.Payload.{be64, device_certificate_payload}
use tui_chat.Server.Admission.{IpAddr}
use tui_chat.Server.Accounts.{normalize_username, validate_password}
use tui_chat.Server.Db.Rows.{Account, Db, StorageLimits, PairingRow, AuditRow}
use tui_chat.Server.Db.Devices.{device_bundles, pending_devices, own_devices}
use tui_chat.Server.Db.Pairing.{audit, pending_pairing_events}
use tui_chat.Server.Live.{Token, LiveSession, Live, register, send_to, online_devices}
use tui_chat.Server.Context.{
  Challenge, Session, Host, State, Handler, continue, ◌>>=◌, ◌>>◌, lift, return_, fail, gets, need,
  modify, reject_if, on_live, on_db, settle, settle_commit, transact, run_db, commit, set_session,
}

-- `tx.send(frame(id, body)).await?`
unfoldable pub send : Host → Text → Body → Handler (Unit {0})
send host id body =
    if host.tx_open
    then on_live (send_to host.token (record { id = id; body = some body }))
    else fail (message "channel closed")

unfoldable pub valid_uuid : Host → Text → Bool
valid_uuid host value = length value == 36 && host.parse_uuid value

unfoldable pub verify_signature : Host → Bytes → Bytes → Bytes → Result (Unit {0})
verify_signature host public payload signature =
    if length public != 32
    then err (message "invalid signing key")
    else if length signature != 64
    then err (message "invalid signature")
    else if not (host.is_key public)
    then err (message "invalid signing key")
    else if host.verify_strict public payload signature
    then ok tt
    else err (message "signature verification failed")

unfoldable pub verify_device_certificate : Host → Bytes → Text → DeviceBundle → Result (Unit {0})
verify_device_certificate host master account_id bundle =
    verify_signature host master
      (device_certificate_payload account_id bundle.device_id bundle.auth_signing_key
        bundle.olm_ed25519_key bundle.olm_curve25519_key)
      bundle.certificate_signature

unfoldable pub verify_prekey : Host → Bytes → OneTimeKey → Result (Unit {0})
verify_prekey host auth_key key =
    verify_signature host auth_key
      (text "tui-chat-prekey-v1" ++ (0 ∷ (key.key_id ++ (0 ∷ key.curve25519_key)))) key.signature

unfoldable pub verify_roster_signature : Host → Bytes → Text → ℕ → Text → Bytes → Result (Unit {0})
verify_roster_signature host master account revision device signature =
    verify_signature host master
      (text "tui-chat-roster-v1" ++ (0 ∷ (account ++ (0 ∷ (be64 revision ++ device))))) signature

pub record PasswordVerification : Type 0 where
  pub valid : Bool
  pub replacement_phc : Option Text

unfoldable pub hash_password : Host → Text → Result Text
hash_password host password = elim (validate_password password) [
  | err e ↦ err e
  | ok u ↦ elim (host.password_hash password) [
    | none ↦ err (message "password hashing failed")
    | some phc ↦ ok phc
  ]
]

unfoldable pub verify_password : Host → Text → Text → PasswordVerification
unfolding hash_password
verify_password host phc password = record {
  valid = host.password_matches phc password;
  replacement_phc =
      if host.password_matches phc password && host.password_needs_rehash phc
      then elim (hash_password host password) [ ok new ↦ some new | err e ↦ none ]
      else none;
}

unfoldable pub is_for_challenge : Host → Text → Text → Challenge → Bool
is_for_challenge host username device_id c =
    c.username == username && (c.device_id == device_id && not (ltb c.expires_at_ms host.now))

unfoldable pub check_challenge : Host → Text → Text → Option Challenge → Handler Challenge
check_challenge host username device_id slot = do
  challenge ← need slot (message "send ClientHello first")
  name ← lift (normalize_username username)
  reject_if (not (is_for_challenge host name device_id challenge))
      (message "authentication challenge is invalid or expired")
  return_ challenge

-- `Option::take` empties the slot before its challenge is looked at.
unfoldable pub take_valid_challenge : Host → Text → Text → Handler Challenge
take_valid_challenge host username device_id s =
    check_challenge host username device_id s.challenge (record s { challenge = none })

unfoldable pub active_session : Handler Session
active_session = do
  slot ← gets (λ s. s.session)
  session ← need slot (message "authentication required")
  reject_if session.pending (message "device approval is pending")
  return_ session

unfoldable pub usable_session : Handler Session
usable_session = active_session

unfoldable pub bootstrap_mode : Session → BootstrapMode
bootstrap_mode session =
    if not session.pending
    then mode_none
    else if is_some session.account.master_public_key
    then pending_device
    else first_device

unfoldable pub send_authenticated : Host → Text → Session → Handler (Unit {0})
send_authenticated host id session = send host id (
    authenticated (record {
      account_id = session.account.id;
      username = session.account.username;
      device_id = session.device_id;
      password_change_required = session.password_change_required;
      pending_device = session.pending;
      account_master_key = unwrap_or session.account.master_public_key [];
      roster_revision = session.account.roster_revision;
      bootstrap_mode = bootstrap_mode session;
      capabilities = capability_own_devices ∷ capability_stable_errors ∷ [];
    }))

-- The arguments of `register` for the session of this connection.
unfoldable pub register_session : Host → Session → Handler (Unit {0})
register_session host session = on_live (
    register (record {
      id = host.token;
      account_id = session.account.id;
      username = session.account.username;
      device_id = session.device_id;
      source_ip = host.source_ip;
      connected_at_ms = host.now;
      last_seen_at_ms = host.now;
      pending = session.pending;
    }))

unfoldable pub write_audit : Host → Text → Text → Text → Text → Text → Text → Handler (Unit {0})
write_audit host category actor action target result details = on_db (λ db. audit db (record {
  occurred_at_ms = host.now;
  category = category;
  actor = actor;
  action = action;
  target = target;
  result = result;
  source_ip = some host.source_ip_text;
  details = details;
}))
