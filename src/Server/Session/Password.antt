-- ===== src/Server/Session/Password.antt =====
-- The handler of PasswordAuth in crates/server/src/ws.rs.
use tui_chat.Base.{
  ltb, Bool, true, false, not, ◌&&◌, ◌||◌, [], Option, none, some, message, if◌then◌else◌, ◌==◌,
  list_eq, nat_eq, bool_eq, option_eq, length, unwrap_or, map_option,
}
use tui_chat.Base.Text.{Text, text}
use tui_chat.Base.Int.{int_eq}
use tui_chat.Protocol.Frames.{PasswordAuth}
use tui_chat.Server.Db.Rows.{Account, Device}
use tui_chat.Server.Db.Devices.{account_by_username, device, set_password}
use tui_chat.Server.Context.{
  Challenge, Session, Host, Handler, ◌>>=◌, ◌>>◌, return_, fail, gets, reject_if, on_db,
  set_session,
}
use tui_chat.Server.Session.{
  PasswordVerification, verify_password, take_valid_challenge, send_authenticated, register_session,
  write_audit,
}
use tui_chat.Server.Session.Auth.{reject_session}
use tui_chat.Server.Session.Push.{push_post_auth}

-- `None` for a missing account, a wrong password or an account that is not active.
unfoldable pub accepted_account : PasswordVerification → Option Account → Option Account
accepted_account verification account = elim account [
  | none ↦ none
  | some a ↦ if verification.valid && a.state == text "active" then some a else none
]

-- The failure is written to the audit log before it is reported.
unfoldable pub require_account : Host → Challenge → Option Account → Handler Account
require_account host challenge accepted = elim accepted [
  | some account ↦ return_ account
  | none ↦ do
    write_audit host (text "auth") challenge.username (text "password_auth") challenge.device_id
        (text "failure") []
    fail (message "invalid credentials")
]

unfoldable pub replace_phc : Option Text → Account → Handler Account
replace_phc replacement account = elim replacement [
  | none ↦ return_ account
  | some phc ↦ do
    on_db (λ db. set_password db account.id phc account.require_password_change)
    return_ (record account { password_phc = phc })
]

-- Is the device there, waiting for approval? One that is approved is refused.
unfoldable pub is_existing_pending : Option Device → Handler Bool
is_existing_pending found = elim found [
  | none ↦ return_ false
  | some d ↦
      if d.pending
      then return_ true
      else fail (message "existing devices must use challenge signatures")
]

unfoldable pub resume_pending : Host → Session → Bool → Handler (Unit {0})
resume_pending host session existing = elim existing [
  | false ↦ return_ tt
  | true ↦ do register_session host session; push_post_auth host session
]

-- The part of the handler behind the rate limit.
unfoldable pub verify_account : Host → Challenge → Text → Handler Account
unfolding accepted_account require_account replace_phc verify_password
verify_account host challenge password = do
  account ← gets (λ s. account_by_username s.db challenge.username)
  let phc = unwrap_or (map_option (λ a. a.password_phc) account) host.dummy_password_phc
  let verification = verify_password host phc password
  accepted ← require_account host challenge (accepted_account verification account)
  replace_phc verification.replacement_phc accepted

-- The part of the handler behind the challenge.
unfoldable pub answer_with_password : Host → Text → PasswordAuth → Challenge → Handler (Unit {0})
answer_with_password host id auth challenge = do
  reject_if (length auth.password == 0 || ltb 1024 (length auth.password))
      (message "invalid credentials")
  reject_if (not host.attempt_allowed) (message "too many authentication attempts; retry later")
  account ← verify_account host challenge auth.password
  found ← gets (λ s. device s.db account.id challenge.device_id)
  existing ← is_existing_pending found
  let session : Session = record {
    account = account;
    device_id = challenge.device_id;
    pending = true;
    password_change_required = false;
    capabilities = challenge.capabilities;
  }
  send_authenticated host id session
  resume_pending host session existing
  write_audit host (text "auth") account.username (text "password_auth") session.device_id
      (text "success") []
  set_session session

unfoldable pub handle_password_auth : Host → Text → PasswordAuth → Handler (Unit {0})
unfolding answer_with_password
handle_password_auth host id auth = do
  reject_session
  challenge ← take_valid_challenge host auth.username auth.device_id
  answer_with_password host id auth challenge
