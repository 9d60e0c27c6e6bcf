-- ===== src/Server/Session/Trust.antt =====
-- What an authentication in crates/server/src/ws.rs rests on: the challenge, the state of the account
-- and the device, and the signature.
use tui_chat.Base.{
  ltb, true, false, none, some, Result, ok, err, list_eq, nat_eq, bool_eq, option_eq,
}
use tui_chat.Base.Text.{Bytes, Text, text}
use tui_chat.Base.Int.{int_eq}
use tui_chat.Protocol.Frames.{DeviceAuth}
use tui_chat.Protocol.Payload.{auth_challenge_payload}
use tui_chat.Server.Db.Rows.{Account, Device, Db}
use tui_chat.Server.Db.Devices.{account_by_username, device}
use tui_chat.Server.Context.{Challenge, Session, Host, State, Handler, continue, ◌>>=◌}
use tui_chat.Server.Session.{verify_signature, take_valid_challenge}
use tui_chat.Base.{subst, Error, ◌≡◌, refl, ap, arith, Option-cases, ◌⊎◌, inl, inr}
use tui_chat.Server.Session.{is_for_challenge, check_challenge}
use tui_chat.Server.Session.Auth.{
  handle_device_auth, answer_challenge, check_device, check_signature, reject_session,
}

module _ {ℓ κ} {A : Type ℓ} {B : Type κ} (f : A → Handler B) where
  continue-eq-ok :
      (r : State × Result A) (s' : State) {b : B}
      → continue f r ≡ (s', ok b)
      → (s1 : State) × (a : A) × (r ≡ (s1, ok a)) × (f a s1 ≡ (s', ok b))
  continue-eq-ok (s1, ok a) s' h = (s1, a, refl, h)
  continue-eq-ok (s1, err x) s' h = cc

  -- A handler that succeeds has run its first step with success, and then the rest.
  pub handler-eq-ok :
      (m : Handler A) (s s' : State) {b : B}
      → (m >>= f) s ≡ (s', ok b)
      → (s1 : State) × (a : A) × (m s ≡ (s1, ok a)) × (f a s1 ≡ (s', ok b))
  handler-eq-ok m s s' h = continue-eq-ok (m s) s' h

verify_signature-ok :
    (host : Host) (public payload signature : Bytes)
    → verify_signature host public payload signature ≡ ok tt
    → host.verify_strict public payload signature ≡ true
unfolding verify_signature
verify_signature-ok host public payload signature h = ground arith

Result-cases_of {ℓ} :
    {A : Type ℓ} (r : Result A) → ((a : A) × (r ≡ ok a)) ⊎ ((e : Error) × (r ≡ err e))
Result-cases_of (ok a) = inl (a, refl)
Result-cases_of (err e) = inr (e, refl)

Result-cases : (r : Result (Unit {0})) → (r ≡ ok tt) ⊎ ((e : Error) × (r ≡ err e))
Result-cases (ok tt) = inl refl
Result-cases (err e) = inr (e, refl)

abbrev signed_payload : Host → Challenge → DeviceAuth → Account → Bytes
signed_payload host c auth account =
    auth_challenge_payload host.domain account.username auth.device_id c.nonce c.expires_at_ms

check_signature-ok :
    (host : Host) (c : Challenge) (auth : DeviceAuth) (a account : Account) (d : Device)
    → check_signature host c auth a d ≡ ok account
    → (a ≡ account)
      × (d.pending ≡ false)
      × (d.revoked ≡ false)
      × (host.verify_strict d.auth_signing_key (signed_payload host c auth a) auth.signature ≡ true)
unfolding check_signature
check_signature-ok host c auth a account d h =
    elim (Result-cases
      (verify_signature host d.auth_signing_key (signed_payload host c auth a) auth.signature)) [
        | inr (e, v) ↦ ground (arith, h, v)
        | inl v ↦ ground (
          arith,
          h,
          v,
          verify_signature-ok host d.auth_signing_key (signed_payload host c auth a) auth.signature
              v,
        )
      ]

-- The device that may authenticate: the account that the challenge names and its device are active,
-- and the device's key verifies the signature of the challenge.
abbrev pub IsTrusted : Host → Challenge → DeviceAuth → Db → Account → Type 0
IsTrusted host c auth db account =
    (account_by_username db c.username ≡ some account)
    × (account.state ≡ text "active")
    × (d : Device) × (device db account.id auth.device_id ≡ some d)
    × (d.pending ≡ false)
    × (d.revoked ≡ false)
    × (host.verify_strict d.auth_signing_key (signed_payload host c auth account) auth.signature
        ≡ true)

check_device-ok :
    (host : Host) (c : Challenge) (auth : DeviceAuth) (db : Db) (account : Account)
    → check_device host c auth db ≡ ok account
    → IsTrusted host c auth db account
unfolding check_device
check_device-ok host c auth db account h = elim (Option-cases (account_by_username db c.username)) [
  | inl e ↦ ground (arith, h, e)
  | inr (a, e) ↦ elim (Option-cases (device db a.id auth.device_id)) [
    | inl f ↦ ground (arith, h, e, f)
    | inr (d, f) ↦
        let signed : check_signature host c auth a d ≡ ok account = ground (arith, h, e, f) in
        let (same, pending, revoked, verified) =
          check_signature-ok host c auth a account d signed in
        (
          ground (arith, e, same),
          ground (arith, h, e, f, same),
          d,
          ground (arith, f, same),
          pending,
          revoked,
          ground (arith, verified, same),
        )
  ]
]

take-ok :
    (host : Host) (username device_id : Text) (s s1 : State) (c : Challenge)
    → take_valid_challenge host username device_id s ≡ (s1, ok c)
    → (s.challenge ≡ some c)
      × (s1 ≡ record s { challenge = none })
      × (c.device_id ≡ device_id)
      × (ltb c.expires_at_ms host.now ≡ false)
unfolding take_valid_challenge check_challenge is_for_challenge
take-ok host username device_id s s1 c h = ground arith

Handler-cases {ℓ} :
    {A : Type ℓ} (r : State × Result A)
    → ((s : State) × (a : A) × (r ≡ (s, ok a))) ⊎ ((s : State) × (e : Error) × (r ≡ (s, err e)))
Handler-cases (s, ok a) = inl (s, a, refl)
Handler-cases (s, err e) = inr (s, e, refl)

take_failed :
    (host : Host) (username device_id : Text) (s s1 : State) (e : Error)
    → take_valid_challenge host username device_id s ≡ (s1, err e)
    → s1 ≡ record s { challenge = none }
unfolding take_valid_challenge check_challenge
take_failed host username device_id s s1 e h = ground arith

-- On a connection without a session, a DeviceAuth frame gives a session only if there was a
-- challenge for its device that had not expired, the account that the challenge names and the
-- device are active, and the key that is stored for the device verifies the signature of the
-- challenge. This holds whatever the handler answers.
pub handle_device_auth-IsTrusted :
    (host : Host) (id : Text) (auth : DeviceAuth) (s : State) (x : Session)
    → s.session ≡ none
    → (handle_device_auth host id auth s).0.session ≡ some x
    → (c : Challenge) × (account : Account) × (s.challenge ≡ some c)
      × (c.device_id ≡ auth.device_id)
      × (ltb c.expires_at_ms host.now ≡ false)
      × IsTrusted host c auth s.db account
unfolding handle_device_auth answer_challenge
handle_device_auth-IsTrusted host id auth s x n h =
    elim (Handler-cases (take_valid_challenge host auth.username auth.device_id s)) [
      | inr (s1, e, v) ↦
          let left = take_failed host auth.username auth.device_id s s1 e v in
          ground (arith, n, h, v, left, reject_session)
      | inl (s1, c, v) ↦ elim (Result-cases_of (check_device host c auth s1.db)) [
        | inl (account, w) ↦
            let (found, left, same, fresh) = take-ok host auth.username auth.device_id s s1 c v in
            (
              c,
              account,
              found,
              same,
              fresh,
              subst (λ db. IsTrusted host c auth db account) (ap (λ s. s.db) left)
                  (check_device-ok host c auth s1.db account w),
            )
        | inr (e, w) ↦
            ground (arith, n, h, v, w, take-ok host auth.username auth.device_id s s1 c v)
      ]
    ]
