-- ===== src/Server/Connection/Marked.antt =====
-- The count of unauthenticated connections that the loop of crates/server/src/ws.rs keeps.
use tui_chat.Base.{
  ltb, Bool, true, false, not, ◌≡◌, refl, List, [], ◌∷◌, Result, ok, err, ◌==◌, nat_eq, length,
  is_some, unwrap_or, arith, Bool-cases, inl, inr,
}
use tui_chat.Base.Text.{Text, text}
use tui_chat.Protocol.Frames.{Frame, protocol_version, pong}
use tui_chat.Base.Int.{pos}
use tui_chat.Server.Context.{Host, State}
use tui_chat.Server.Session.Sound.{frame-Keeps}
use tui_chat.Server.Session.Handle.{handle_frame}
use tui_chat.Server.Errors.{public_error}
use tui_chat.Server.Connection.{
  Event, told, ended, pinged, received, undecodable, ignored, Connection, is_access_revoked,
  serve_frame, round, rounds, settle_frame, report, send_error, try_send, on_state,
}
use tui_chat.Server.Connection.Access.{try_send-kept, send_error-kept}

abbrev HasSession : State → Type 0
HasSession s = is_some s.session ≡ true

handled-HasSession :
    (host : Host) (incoming : Frame) (s : State)
    → HasSession s
    → HasSession (handle_frame host incoming s).0
handled-HasSession host incoming s h =
    (frame-Keeps HasSession (record { live = λ s l p. p; db = λ s d f p. p }) (λ s x p. refl)
        (λ s c p. p) host incoming).kept
      s h

report-session :
    (host : Host) (id : Text) (r : State × Result (Unit {0}))
    → (report host id r).session ≡ r.0.session
unfolding report
report-session host id (s, ok u) = refl
report-session host id (s, err e) =
    (send_error-kept host id (public_error e).code (public_error e).message_
      (public_error e).retryable s).1

-- The connection counts as unauthenticated exactly while it has no session.
abbrev pub IsMarked : Connection → Type 0
IsMarked c = c.admitted_as_unauthenticated ≡ not (is_some c.state.session)

settle-IsMarked :
    (host : Host) (c : Connection)
    → (c.admitted_as_unauthenticated ≡ false → is_some c.state.session ≡ true)
    → IsMarked (settle_frame host c)
unfolding settle_frame
settle-IsMarked host c h = ground arith

same-IsMarked :
    (f : State → State) (c : Connection)
    → (f c.state).session ≡ c.state.session
    → IsMarked c
    → IsMarked (on_state f c)
same-IsMarked f c e h = rw e h

error-IsMarked :
    (host : Host) (id code message : Text) (retryable : Bool) (c : Connection)
    → IsMarked c
    → IsMarked (on_state (send_error host id code message retryable) c)
error-IsMarked host id code message retryable c h =
    same-IsMarked (send_error host id code message retryable) c
      (send_error-kept host id code message retryable c.state).1 h

handled-IsMarked :
    (host : Host) (incoming : Frame) (c : Connection)
    → IsMarked c
    → IsMarked (
        settle_frame host
          (on_state (λ s. report host incoming.id (handle_frame host incoming s)) c))
handled-IsMarked host incoming c h =
    settle-IsMarked host (on_state (λ s. report host incoming.id (handle_frame host incoming s)) c)
      (λ e. ground (
        arith,
        h,
        e,
        report-session host incoming.id (handle_frame host incoming c.state),
        handled-HasSession host incoming c.state,
      ))

serve_frame-IsMarked :
    (host : Host) (allowed : Bool) (incoming : Frame) (c : Connection)
    → IsMarked c
    → IsMarked (serve_frame host allowed incoming c).0
unfolding serve_frame
serve_frame-IsMarked host allowed incoming c h = elim (Bool-cases (ltb 64 (length incoming.id))) [
  | inl e ↦
      rw e (error-IsMarked host [] (text "invalid_frame") (text "request id is too long") false c h)
  | inr e ↦ elim (Bool-cases allowed) [
    | inr f ↦
        rw (e, f)
          (error-IsMarked host incoming.id (text "rate_limited")
            (text "request rate limit exceeded") true c h)
    | inl f ↦ elim (Bool-cases (is_access_revoked c.state.db c.state.session)) [
      | inl g ↦
          rw (e, f, g)
            (error-IsMarked host incoming.id (text "access_revoked")
              (text "account or device access was revoked") false c h)
      | inr g ↦ rw (e, f, g) (handled-IsMarked host incoming c h)
    ]
  ]
]

round-IsMarked :
    (host : Host) (allowed : Bool) (event : Event) (c : Connection)
    → IsMarked c
    → IsMarked (round host allowed event c).0
unfolding round
round-IsMarked host allowed (told reason) c h =
    error-IsMarked host [] (unwrap_or reason (text "session_closed"))
      (text "session closed by server") true c h
round-IsMarked host allowed ended c h = h
round-IsMarked host allowed (pinged b) c h =
    same-IsMarked (try_send host [] (pong (pos b))) c
      (try_send-kept host [] (pong (pos b)) c.state).1 h
round-IsMarked host allowed (received version incoming) c h =
    elim (Bool-cases (version == protocol_version)) [
      | inl e ↦ rw e (serve_frame-IsMarked host allowed incoming c h)
      | inr e ↦ rw e (
          error-IsMarked host [] (text "unsupported_version")
            (text "client and server protocol versions differ") false c h)
    ]
round-IsMarked host allowed (undecodable reason) c h =
    error-IsMarked host [] (text "invalid_frame") reason false c h
round-IsMarked host allowed ignored c h = h

-- Whatever a connection receives, it counts as unauthenticated exactly while it has no session,
-- if it did at first.
pub rounds-IsMarked :
    (events : List (Host × Bool × Event)) (c : Connection) → IsMarked c → IsMarked (rounds events c)
unfolding rounds
rounds-IsMarked [] c h = h
rounds-IsMarked ((host, allowed, event) ∷ rest) c h =
    elim (Bool-cases (round host allowed event c).1) [
      | inl e ↦ rw e (
          rounds-IsMarked rest (round host allowed event c).0
            (round-IsMarked host allowed event c h))
      | inr e ↦ rw e (round-IsMarked host allowed event c h)
    ]
