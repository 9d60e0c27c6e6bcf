-- ===== src/Server/Session/Auth.antt =====
-- The handlers of crates/server/src/ws.rs that authenticate: ClientHello, DeviceAuth, PasswordAuth.
use tui_chat.Base.{
  ◌+◌, ltb, Bool, false, not, ◌||◌, List, [], none, some, Result, ok, err, message, if◌then◌else◌,
  ◌==◌, ◌!=◌, list_eq, nat_eq, bool_eq, option_eq, length, any, is_some,
}
use tui_chat.Base.Text.{Text, text}
use tui_chat.Base.Int.{int_eq}
use tui_chat.Protocol.Frames.{ClientHello, DeviceAuth, auth_challenge}
use tui_chat.Protocol.Payload.{auth_challenge_payload}
use tui_chat.Server.Accounts.{normalize_username}
use tui_chat.Server.Db.Rows.{Account, Device, Db}
use tui_chat.Server.Db.Devices.{account_by_username, device, record_device_authentication}
use tui_chat.Server.Context.{
  Challenge, Session, Host, Handler, ◌>>=◌, ◌>>◌, lift, gets, modify, reject_if, on_db, set_session,
}
use tui_chat.Server.Session.{
  send, valid_uuid, verify_signature, take_valid_challenge, send_authenticated, register_session,
  write_audit,
}
use tui_chat.Server.Session.Push.{push_post_auth}

abbrev pub reject_session : Handler (Unit {0})
reject_session = do
  slot ← gets (λ s. s.session)
  reject_if (is_some slot) (message "connection is already authenticated")

unfoldable pub has_bad_capabilities : List Text → Bool
has_bad_capabilities capabilities =
    ltb 32 (length capabilities) || any (λ c. length c == 0 || ltb 64 (length c)) capabilities

unfoldable pub handle_client_hello : Host → Text → ClientHello → Handler (Unit {0})
handle_client_hello host id hello = do
  reject_session
  username ← lift (normalize_username hello.username)
  reject_if (not (valid_uuid host hello.device_id)) (message "invalid device id")
  reject_if (has_bad_capabilities hello.capabilities) (message "invalid client capabilities")
  modify (λ s. record s {
    challenge = some (record {
      username = username;
      device_id = hello.device_id;
      nonce = host.nonce;
      expires_at_ms = host.now + 30000;
      capabilities = hello.capabilities;
    });
  })
  send host id (auth_challenge (record { nonce = host.nonce; expires_at_ms = host.now + 30000 }))

-- The account, once the signature of its device over the challenge is checked.
unfoldable pub check_signature : Host → Challenge → DeviceAuth → Account → Device → Result Account
check_signature host challenge auth account d =
    if d.pending || d.revoked
    then err (message "device is not active")
    else elim (verify_signature host d.auth_signing_key
        (auth_challenge_payload host.domain account.username auth.device_id challenge.nonce
          challenge.expires_at_ms)
        auth.signature) [ err e ↦ err e | ok u ↦ ok account ]

-- The account that a challenge is answered for, if it and the device are active.
unfoldable pub check_device : Host → Challenge → DeviceAuth → Db → Result Account
unfolding check_signature
check_device host challenge auth db = elim (account_by_username db challenge.username) [
  | none ↦ err (message "invalid credentials")
  | some account ↦
      if account.state != text "active"
      then err (message "invalid credentials")
      else elim (device db account.id auth.device_id) [
        | none ↦ err (message "invalid credentials")
        | some d ↦ check_signature host challenge auth account d
      ]
]

-- The part of the handler behind the challenge.
unfoldable pub answer_challenge : Host → Text → DeviceAuth → Challenge → Handler (Unit {0})
answer_challenge host id auth challenge = do
  db ← gets (λ s. s.db)
  account ← lift (check_device host challenge auth db)
  on_db (λ db. record_device_authentication db auth.device_id host.now)
  let session : Session = record {
    account = account;
    device_id = auth.device_id;
    pending = false;
    password_change_required = account.require_password_change;
    capabilities = challenge.capabilities;
  }
  register_session host session
  send_authenticated host id session
  push_post_auth host session
  write_audit host (text "auth") account.username (text "device_auth") session.device_id
      (text "success") []
  set_session session

unfoldable pub handle_device_auth : Host → Text → DeviceAuth → Handler (Unit {0})
unfolding answer_challenge
handle_device_auth host id auth = do
  reject_session
  challenge ← take_valid_challenge host auth.username auth.device_id
  answer_challenge host id auth challenge
