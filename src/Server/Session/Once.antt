-- ===== src/Server/Session/Once.antt =====
-- The challenge and the session after an authentication in crates/server/src/ws.rs.
use tui_chat.Base.{true, none, some, list_eq, nat_eq, bool_eq, option_eq}
use tui_chat.Base.Text.{Text}
use tui_chat.Base.Int.{int_eq}
use tui_chat.Protocol.Frames.{DeviceAuth, PasswordAuth}
use tui_chat.Server.Context.{Session, Host, State, continue}
use tui_chat.Server.Session.{take_valid_challenge}
use tui_chat.Base.{◌≡◌, refl, sym, subst, arith}
use tui_chat.Server.Session.Keeps.{IsStable, continue-Keeps, check-Keeps}
use tui_chat.Server.Session.Auth.{handle_device_auth, answer_challenge}
use tui_chat.Server.Session.Password.{handle_password_auth, answer_with_password}
use tui_chat.Server.Session.Sound.Auth.{answer_challenge-Keeps, answer_with_password-Keeps}

abbrev IsSpent : State → Type 0
IsSpent s = s.challenge ≡ none

IsSpent-IsStable : IsStable IsSpent
IsSpent-IsStable = record { live = λ s l p. p; db = λ s d f p. p }

take-IsSpent :
    (host : Host) (username device_id : Text) (s : State)
    → IsSpent (take_valid_challenge host username device_id s).0
unfolding take_valid_challenge
take-IsSpent host username device_id s =
    (check-Keeps IsSpent host username device_id s.challenge).kept (record s { challenge = none })
      refl

device_auth-taken :
    (host : Host) (id : Text) (auth : DeviceAuth) (s : State)
    → s.session ≡ none
    → handle_device_auth host id auth s
      ≡ continue
          (answer_challenge host id auth)
          (take_valid_challenge host auth.username auth.device_id s)
unfolding handle_device_auth
device_auth-taken host id auth s n = rw n refl

password_auth-taken :
    (host : Host) (id : Text) (auth : PasswordAuth) (s : State)
    → s.session ≡ none
    → handle_password_auth host id auth s
      ≡ continue
          (answer_with_password host id auth)
          (take_valid_challenge host auth.username auth.device_id s)
unfolding handle_password_auth
password_auth-taken host id auth s n = rw n refl

device_auth-IsSpent :
    (host : Host) (id : Text) (auth : DeviceAuth) (s : State)
    → s.session ≡ none
    → IsSpent (handle_device_auth host id auth s).0
device_auth-IsSpent host id auth s n =
    subst (λ r. IsSpent r.0) (sym (device_auth-taken host id auth s n))
      (continue-Keeps IsSpent (answer_challenge host id auth) _
        (take-IsSpent host auth.username auth.device_id s)
        (answer_challenge-Keeps IsSpent IsSpent-IsStable (λ x. record { kept = λ s p. p }) host id
          auth))

password_auth-IsSpent :
    (host : Host) (id : Text) (auth : PasswordAuth) (s : State)
    → s.session ≡ none
    → IsSpent (handle_password_auth host id auth s).0
password_auth-IsSpent host id auth s n =
    subst (λ r. IsSpent r.0) (sym (password_auth-taken host id auth s n))
      (continue-Keeps IsSpent (answer_with_password host id auth) _
        (take-IsSpent host auth.username auth.device_id s)
        (answer_with_password-Keeps IsSpent IsSpent-IsStable (λ x p. record { kept = λ s p. p })
          host id auth))

-- On a connection without a session, one answer to a challenge, by a signature or by a password,
-- uses it up: whether the answer is accepted or not, no challenge is left.
pub take_valid_challenge_once :
    (host : Host) (id : Text) (auth : DeviceAuth) (password : PasswordAuth) (s : State)
    → s.session ≡ none
    → ((handle_device_auth host id auth s).0.challenge ≡ none)
      × ((handle_password_auth host id password s).0.challenge ≡ none)
take_valid_challenge_once host id auth password s n =
    (device_auth-IsSpent host id auth s n, password_auth-IsSpent host id password s n)

abbrev pub HasPending : State → Type 0
HasPending s = (x : Session) → s.session ≡ some x → x.pending ≡ true

abbrev IsEmpty : State → Type 0
IsEmpty s = s.session ≡ none

take-IsEmpty :
    (host : Host) (username device_id : Text) (s : State)
    → IsEmpty s
    → IsEmpty (take_valid_challenge host username device_id s).0
unfolding take_valid_challenge
take-IsEmpty host username device_id s n =
    (check-Keeps IsEmpty host username device_id s.challenge).kept (record s { challenge = none }) n

IsEmpty-HasPending : (s : State) → IsEmpty s → HasPending s
IsEmpty-HasPending s n x e = ground (arith, n, e)

-- On a connection without a session, a password never gives the session of an approved device:
-- whatever the handler answers, a session that the connection has afterwards is pending.
pub handle_password_auth-HasPending :
    (host : Host) (id : Text) (auth : PasswordAuth) (s : State)
    → s.session ≡ none
    → HasPending (handle_password_auth host id auth s).0
handle_password_auth-HasPending host id auth s n =
    subst (λ r. HasPending r.0) (sym (password_auth-taken host id auth s n))
      (continue-Keeps HasPending (answer_with_password host id auth) _
        (IsEmpty-HasPending (take_valid_challenge host auth.username auth.device_id s).0
          (take-IsEmpty host auth.username auth.device_id s n))
        (answer_with_password-Keeps HasPending (record { live = λ s l p. p; db = λ s d f p. p })
          (λ x p. record { kept = λ s q y e. ground (arith, e, p) }) host id auth))
