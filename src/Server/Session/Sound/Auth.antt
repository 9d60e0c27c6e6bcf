-- ===== src/Server/Session/Sound/Auth.antt =====
-- The handlers of crates/server/src/ws.rs that authenticate, step by step, under an invariant of
-- the state.
use tui_chat.Base.{
  ℕ, Bool, true, false, List, [], ◌∷◌, Option, none, some, list_eq, nat_eq, bool_eq, option_eq,
}
use tui_chat.Base.Text.{Text}
use tui_chat.Base.Int.{int_eq}
use tui_chat.Protocol.Frames.{Body, ClientHello, DeviceAuth, PasswordAuth}
use tui_chat.Server.Db.Rows.{Account, Device}
use tui_chat.Server.Db.Devices.{set_password, record_device_authentication}
use tui_chat.Server.Context.{Challenge, Session, Host, State, modify, on_db, set_session}
use tui_chat.Server.Session.{take_valid_challenge}
use tui_chat.Base.{◌≡◌}
use tui_chat.Server.Session.Keeps.{
  Keeps, IsStable, steps, db-Keeps, session-Keeps, take-Keeps, bind-Keeps, send-Keeps,
}
use tui_chat.Server.Db.Unrelated.{
  set_password-IsConsistent, record_device_authentication-IsConsistent,
}
use tui_chat.Server.Session.Push.{push_post_auth, send_each}
use tui_chat.Server.Session.Auth.{handle_client_hello, handle_device_auth, answer_challenge}
use tui_chat.Server.Session.Password.{
  handle_password_auth, answer_with_password, verify_account, require_account, replace_phc,
  is_existing_pending, resume_pending,
}

module _ (P : State → Type 0) (stable : IsStable P) where
  send_each-Keeps : (host : Host) (bodies : List Body) → Keeps P (send_each host bodies)
  unfolding send_each
  send_each-Keeps host [] = search steps
  send_each-Keeps host (b ∷ bs) =
      bind-Keeps P _ _ (send-Keeps P stable host [] b) (λ done. send_each-Keeps host bs)

  post_auth-Keeps : (host : Host) (session : Session) → Keeps P (push_post_auth host session)
  unfolding push_post_auth
  post_auth-Keeps host session = search (steps, send_each-Keeps) depth 20

  password-Keeps :
      (account phc : Text) (change : Bool)
      → Keeps P (on_db (λ db. set_password db account phc change))
  password-Keeps account phc change =
      db-Keeps P stable _ (set_password-IsConsistent account phc change)

  seen-Keeps :
      (id : Text) (now : ℕ) → Keeps P (on_db (λ db. record_device_authentication db id now))
  seen-Keeps id now = db-Keeps P stable _ (record_device_authentication-IsConsistent id now)

  require-Keeps :
      (host : Host) (c : Challenge) (accepted : Option Account)
      → Keeps P (require_account host c accepted)
  unfolding require_account
  require-Keeps host c none = search steps depth 20
  require-Keeps host c (some a) = search steps depth 20

  replace-Keeps : (phc : Option Text) (account : Account) → Keeps P (replace_phc phc account)
  unfolding replace_phc
  replace-Keeps none account = search steps depth 20
  replace-Keeps (some phc) account = search (steps, password-Keeps) depth 20

  verify-Keeps :
      (host : Host) (c : Challenge) (password : Text) → Keeps P (verify_account host c password)
  unfolding verify_account
  verify-Keeps host c password = search (steps, require-Keeps, replace-Keeps) depth 20

  existing-Keeps : (found : Option Device) → Keeps P (is_existing_pending found)
  unfolding is_existing_pending
  existing-Keeps none = search steps depth 20
  existing-Keeps (some d) = search steps depth 20

  resume-Keeps :
      (host : Host) (session : Session) (existing : Bool)
      → Keeps P (resume_pending host session existing)
  unfolding resume_pending
  resume-Keeps host session false = search steps depth 20
  resume-Keeps host session true = search (steps, post_auth-Keeps) depth 20

  pub answer_challenge-Keeps :
      ((x : Session) → Keeps P (set_session x))
      → (host : Host) (id : Text) (auth : DeviceAuth) (c : Challenge)
      → Keeps P (answer_challenge host id auth c)
  unfolding answer_challenge
  answer_challenge-Keeps set host id auth c =
      search (steps, seen-Keeps, post_auth-Keeps, set) depth 40

  -- A session that a password gives is pending.
  pub answer_with_password-Keeps :
      ((x : Session) → x.pending ≡ true → Keeps P (set_session x))
      → (host : Host) (id : Text) (auth : PasswordAuth) (c : Challenge)
      → Keeps P (answer_with_password host id auth c)
  unfolding answer_with_password
  answer_with_password-Keeps set host id auth c =
      search (steps, verify-Keeps, existing-Keeps, resume-Keeps, set) depth 40

  module _ (free : (s : State) (x : Session) → P s → P (record s { session = some x }))
      (free_challenge : (s : State) (slot : Option Challenge)
        → P s
        → P (record s { challenge = slot })) where
    answered-Keeps :
        (host : Host) (id : Text) (auth : DeviceAuth) (c : Challenge)
        → Keeps P (answer_challenge host id auth c)
    answered-Keeps = answer_challenge-Keeps (λ x. session-Keeps P free x)

    proved-Keeps :
        (host : Host) (id : Text) (auth : PasswordAuth) (c : Challenge)
        → Keeps P (answer_with_password host id auth c)
    proved-Keeps = answer_with_password-Keeps (λ x p. session-Keeps P free x)

    taken-Keeps : (host : Host) (u d : Text) → Keeps P (take_valid_challenge host u d)
    taken-Keeps host u d = take-Keeps P free_challenge host u d

    offer-Keeps : (c : Challenge) → Keeps P (modify (λ s. record s { challenge = some c }))
    offer-Keeps c = record { kept = λ s p. free_challenge s (some c) p }

    pub client_hello-Keeps :
        (host : Host) (id : Text) (hello : ClientHello)
        → Keeps P (handle_client_hello host id hello)
    unfolding handle_client_hello
    client_hello-Keeps host id hello = search (steps, offer-Keeps) depth 20

    pub device_auth-Keeps :
        (host : Host) (id : Text) (auth : DeviceAuth) → Keeps P (handle_device_auth host id auth)
    unfolding handle_device_auth
    device_auth-Keeps host id auth = search (steps, taken-Keeps, answered-Keeps) depth 20

    pub password_auth-Keeps :
        (host : Host) (id : Text) (auth : PasswordAuth)
        → Keeps P (handle_password_auth host id auth)
    unfolding handle_password_auth
    password_auth-Keeps host id auth = search (steps, taken-Keeps, proved-Keeps) depth 20
