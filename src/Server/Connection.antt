-- ===== src/Server/Connection.antt =====
-- The loop of `connection` in crates/server/src/ws.rs, which receives the frames of one connection.
pub mod Access
pub mod Marked
use tui_chat.Base.{
  ℕ, ◌-◌, leb, ltb, Bool, true, false, not, ◌&&◌, ◌||◌, List, [], ◌∷◌, Option, none, some, Result,
  ok, err, Error, if◌then◌else◌, ◌==◌, ◌!=◌, list_eq, nat_eq, length, is_some, unwrap_or,
}
use tui_chat.Base.Text.{Text, text}
use tui_chat.Base.Int.{ℤ, pos}
use tui_chat.Protocol.Frames.{Frame, Body, error, pong, protocol_version}
use tui_chat.Server.Admission.{Admission, mark_authenticated, release}
use tui_chat.Server.Db.Rows.{Account, Device, Db}
use tui_chat.Server.Db.Devices.{account_by_username, device}
use tui_chat.Server.Live.{send_to, touch_session, unregister}
use tui_chat.Server.Errors.{PublicError, public_error}
use tui_chat.Server.Context.{Session, Host, State}
use tui_chat.Server.Session.Handle.{handle_frame}

-- What the `select!` of the loop yields: a wish to disconnect with its reason, the end of the stream
-- or its silence for a minute, a ping with its first byte, a frame with its version, bytes that are
-- no frame, and messages that are ignored.
pub data Event : Type 0 where
  told : Option Text → Event
  ended : Event
  pinged : ℕ → Event
  received : ℕ → Frame → Event
  undecodable : Text → Event
  ignored : Event

-- The state of the loop. `request_allowed` of the call is the answer of the request bucket.
pub record Connection : Type 0 where
  pub state : State
  pub admission : Admission
  pub admitted_as_unauthenticated : Bool

is_start : ℕ → Bool
is_start b = ltb b 128 || leb 192 b

-- `chars().take(n)`
unfoldable pub take_chars : ℕ → Text → Text
unfolding is_start
take_chars n [] = []
take_chars n (b ∷ bs) =
    let more = take_chars n bs in
    let fewer = take_chars (n - 1) bs in
    if is_start b then (if n == 0 then [] else b ∷ fewer) else b ∷ more

abbrev pub on_state : (State → State) → Connection → Connection
on_state f c = record c { state = f c.state }

-- An error of the send is ignored.
unfoldable pub try_send : Host → Text → Body → State → State
try_send host id body s =
    if host.tx_open
    then record s { live = send_to host.token (record { id = id; body = some body }) s.live }
    else s

unfoldable pub send_error : Host → Text → Text → Text → Bool → State → State
unfolding try_send take_chars
send_error host id code message retryable =
    try_send host id
      (error (record { code = code; message = take_chars 240 message; retryable = retryable }))

unfoldable pub is_account_active : Option Account → Bool
is_account_active none = false
is_account_active (some a) = a.state == text "active"

unfoldable pub is_device_active : Option Device → Bool
is_device_active none = false
is_device_active (some d) = not d.pending && not d.revoked

-- Is the account or the device of the session no longer active?
unfoldable pub is_access_revoked : Db → Option Session → Bool
is_access_revoked db none = false
is_access_revoked db (some x) =
    not x.pending
    && (not (is_account_active (account_by_username db x.account.username))
        || not (is_device_active (device db x.account.id x.device_id)))

unfoldable pub report : Host → Text → State × Result (Unit {0}) → State
unfolding send_error
report host id (s, ok u) = s
report host id (s, err e) =
    let p = public_error e in send_error host id p.code p.message_ p.retryable s

-- What follows a frame that was handled.
unfoldable pub settle_frame : Host → Connection → Connection
settle_frame host c =
    let marked : Connection =
      if c.admitted_as_unauthenticated && is_some c.state.session
      then record c {
        admission = mark_authenticated host.source_ip c.admission;
        admitted_as_unauthenticated = false;
      }
      else c in
    on_state (λ s. record s { live = touch_session host.token host.now s.live }) marked

-- A frame of the current version: the connection, and whether the loop goes on.
unfoldable pub serve_frame : Host → Bool → Frame → Connection → Connection × Bool
unfolding report settle_frame
serve_frame host request_allowed incoming c =
    if ltb 64 (length incoming.id)
    then (
      on_state (send_error host [] (text "invalid_frame") (text "request id is too long") false) c,
      false,
    )
    else if not request_allowed
    then (
      on_state
          (send_error host incoming.id (text "rate_limited") (text "request rate limit exceeded")
            true)
          c,
      false,
    )
    else if is_access_revoked c.state.db c.state.session
    then (
      on_state
          (send_error host incoming.id (text "access_revoked")
            (text "account or device access was revoked") false)
          c,
      false,
    )
    else (
      settle_frame host (on_state (λ s. report host incoming.id (handle_frame host incoming s)) c),
      true,
    )

-- One round of the loop.
unfoldable pub round : Host → Bool → Event → Connection → Connection × Bool
unfolding serve_frame
round host request_allowed (told reason) c = (
  on_state
      (send_error host [] (unwrap_or reason (text "session_closed"))
        (text "session closed by server") true)
      c,
  false,
)
round host request_allowed ended c = (c, false)
round host request_allowed (pinged b) c = (on_state (try_send host [] (pong (pos b))) c, true)
round host request_allowed (received version incoming) c =
    if version == protocol_version then serve_frame host request_allowed incoming c else (
      on_state
          (send_error host [] (text "unsupported_version")
            (text "client and server protocol versions differ") false)
          c,
      true,
    )
round host request_allowed (undecodable reason) c =
    (on_state (send_error host [] (text "invalid_frame") reason false) c, true)
round host request_allowed ignored c = (c, true)

-- What follows the loop.
unfoldable pub finish : Host → Connection → Connection
finish host c =
    let left : State = elim (c.state.session) [
      | none ↦ c.state
      | some x ↦ record (c.state) { live = unregister x.device_id host.token c.state.live }
    ] in
    record c {
      state = left;
      admission = release host.source_ip c.admitted_as_unauthenticated c.admission;
    }

-- The rounds until one of them ends the loop, or until the events are used up.
unfoldable pub rounds : List (Host × Bool × Event) → Connection → Connection
unfolding round
rounds [] c = c
rounds ((host, allowed, event) ∷ rest) c =
    let (c', goes_on) = round host allowed event c in
    let later = rounds rest c' in if goes_on then later else c'
