-- ===== src/Server/Connection/Access.antt =====
-- The loop of crates/server/src/ws.rs against revocation.
use tui_chat.Base.{
  ltb, Bool, true, false, ◌&&◌, ◌≡◌, refl, ◌∙◌, List, [], ◌∷◌, some, list_eq, nat_eq, length, find,
  any, arith, Bool-cases, ==_refl, Option-cases, inl, inr,
}
use tui_chat.Base.Text.{Text, text}
use tui_chat.Protocol.Frames.{Frame, Body, protocol_version}
use tui_chat.Server.Db.Rows.{DeviceRow, Db}
use tui_chat.Server.Db.Devices.{device, is_device, is_active}
use tui_chat.Server.Db.Cleanup.{revoke_own_device}
use tui_chat.Server.Db.Cleanup.Revocation.{any-revoke_own_device}
use tui_chat.Server.Context.{Session, Host, State}
use tui_chat.Server.Connection.{
  received, Connection, is_access_revoked, is_device_active, serve_frame, round, send_error,
  try_send, on_state,
}

pub try_send-kept :
    (host : Host) (id : Text) (body : Body) (s : State)
    → ((try_send host id body s).db ≡ s.db) × ((try_send host id body s).session ≡ s.session)
unfolding try_send
try_send-kept host id body s = ground arith

pub send_error-kept :
    (host : Host) (id code message : Text) (retryable : Bool) (s : State)
    → ((send_error host id code message retryable s).db ≡ s.db)
      × ((send_error host id code message retryable s).session ≡ s.session)
unfolding send_error
send_error-kept host id code message retryable s = try_send-kept host id _ s

-- A round that ends the loop without touching the database or the session.
abbrev IsTurnedAway : Connection → Connection × Bool → Type 0
IsTurnedAway c (c', goes_on) =
    (goes_on ≡ false) × (c'.state.db ≡ c.state.db) × (c'.state.session ≡ c.state.session)

turned_away :
    (host : Host) (id code message : Text) (retryable : Bool) (c : Connection)
    → IsTurnedAway c (on_state (send_error host id code message retryable) c, false)
turned_away host id code message retryable c =
    let (db, session) = send_error-kept host id code message retryable c.state in
    (refl, db, session)

serve_frame-revoked :
    (host : Host) (allowed : Bool) (incoming : Frame) (c : Connection)
    → is_access_revoked c.state.db c.state.session ≡ true
    → IsTurnedAway c (serve_frame host allowed incoming c)
unfolding serve_frame
serve_frame-revoked host allowed incoming c revoked =
    elim (Bool-cases (ltb 64 (length incoming.id))) [
      | inl e ↦
          rw e (turned_away host [] (text "invalid_frame") (text "request id is too long") false c)
      | inr e ↦ elim (Bool-cases allowed) [
        | inr f ↦
            rw (e, f)
              (turned_away host incoming.id (text "rate_limited")
                (text "request rate limit exceeded") true c)
        | inl f ↦
            rw (e, f, revoked)
              (turned_away host incoming.id (text "access_revoked")
                (text "account or device access was revoked") false c)
      ]
    ]

-- Once the account or the device of an approved session is not active in the database any more, a
-- frame of the current version ends the loop and leaves the database and the session as they are.
pub round_revoked :
    (host : Host) (allowed : Bool) (incoming : Frame) (c : Connection)
    → is_access_revoked c.state.db c.state.session ≡ true
    → let (c', goes_on) = round host allowed (received protocol_version incoming) c in
      (goes_on ≡ false) × (c'.state.db ≡ c.state.db) × (c'.state.session ≡ c.state.session)
unfolding round
round_revoked host allowed incoming c revoked =
    rw (==_refl protocol_version) (serve_frame-revoked host allowed incoming c revoked)

find-inactive :
    (p q : DeviceRow → Bool) (rows : List DeviceRow) (row : DeviceRow)
    → any (λ d. p d && q d) rows ≡ false
    → find p rows ≡ some row
    → q row ≡ false
unfolding find any
find-inactive p q [] row h f = cc
find-inactive p q (d ∷ rows) row h f = ground (arith, h, f, find-inactive p q rows row)

device-inactive :
    (db : Db) (account id : Text)
    → any (λ d. is_device account id d && is_active d) db.devices ≡ false
    → is_device_active (device db account id) ≡ false
unfolding device is_device_active
device-inactive db account id h = elim (Option-cases (find (is_device account id) db.devices)) [
  | inl e ↦ rw e refl
  | inr (row, e) ↦
      ground (arith, e, find-inactive (is_device account id) is_active db.devices row h e)
]

access-revoked :
    (db : Db) (x : Session)
    → x.pending ≡ false
    → is_device_active (device db x.account.id x.device_id) ≡ false
    → is_access_revoked db (some x) ≡ true
unfolding is_access_revoked
access-revoked db x active gone = ground (arith, active, gone)

-- A device that its account has revoked is turned away with its next frame of the current version:
-- the loop of an approved session that it had opened before ends, on the database after the
-- revocation and with its session as it was.
pub round_after_revoke :
    (host : Host) (allowed : Bool) (incoming : Frame) (c : Connection) (x : Session)
    → (revoke_own_device c.state.db x.account.id x.device_id).1 ≡ true
    → c.state.session ≡ some x
    → x.pending ≡ false
    → let db = (revoke_own_device c.state.db x.account.id x.device_id).0 in
      let after : Connection = record c { state = record (c.state) { db = db } } in
      let (c', goes_on) = round host allowed (received protocol_version incoming) after in
      (goes_on ≡ false) × (c'.state.db ≡ db) × (c'.state.session ≡ some x)
round_after_revoke host allowed incoming c x done open_ active =
    let db = (revoke_own_device c.state.db x.account.id x.device_id).0 in
    let gone =
      device-inactive db x.account.id x.device_id
        (any-revoke_own_device c.state.db x.account.id x.device_id done) in
    let (ends, same, session) =
      round_revoked host allowed incoming (record c { state = record (c.state) { db = db } })
        (rw open_ (access-revoked db x active gone)) in
    (ends, same, session ∙ open_)
