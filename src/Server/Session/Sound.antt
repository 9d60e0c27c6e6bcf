-- ===== src/Server/Session/Sound.antt =====
-- The frames that crates/server/src/ws.rs handles, one after another, and the tables.
pub mod Requests
pub mod Auth
pub mod Enroll
use tui_chat.Base.{ℕ, ◌≡◌, refl, List, [], ◌∷◌, Option, none, some}
use tui_chat.Base.Text.{Text}
use tui_chat.Protocol.Frames.{
  Frame, Body, client_hello, auth_challenge, device_auth, password_auth, authenticated,
  bootstrap_device, change_password, lookup_user, user_bundle, publish_pre_keys, claim_pre_key,
  pre_key_bundle, send_envelopes, send_accepted, sync_request, sync_batch, ack_envelope,
  delivery_update, pairing_request, pairing_event, activate_device_frame, ack_pairing_event_frame,
  list_own_devices, own_device_list_frame, revoke_own_device_frame, error, ping, pong, operation_ok,
}
use tui_chat.Server.Db.Consistent.{IsConsistent}
use tui_chat.Server.Context.{Challenge, Session, Host, State}
use tui_chat.Server.Session.Handle.{handle_body, handle_some, handle_frame}
use tui_chat.Server.Session.Keeps.{Keeps, IsStable, fail-Keeps, return-Keeps, send-Keeps}
use tui_chat.Server.Session.Sound.Requests.{
  lookup_user-Keeps, publish_prekeys-Keeps, claim_prekey-Keeps, send_envelopes-Keeps,
  sync_request-Keeps, ack_envelope-Keeps, pairing_event-Keeps, ack_pairing_event-Keeps,
  activate_device-Keeps, list_own_devices-Keeps, revoke_own_device-Keeps,
}
use tui_chat.Server.Session.Sound.Auth.{client_hello-Keeps, device_auth-Keeps, password_auth-Keeps}
use tui_chat.Server.Session.Sound.Enroll.{bootstrap_device-Keeps, change_password-Keeps}

module _ (P : State → Type 0) (stable : IsStable P)
    (free : (s : State) (x : Session) → P s → P (record s { session = some x }))
    (free_challenge : (s : State) (slot : Option Challenge)
      → P s
      → P (record s { challenge = slot })) where
  body-Keeps : (host : Host) (id : Text) (body : Body) → Keeps P (handle_body host id body)
  unfolding handle_body
  body-Keeps host id (client_hello x) = client_hello-Keeps P stable free free_challenge host id x
  body-Keeps host id (device_auth x) = device_auth-Keeps P stable free free_challenge host id x
  body-Keeps host id (password_auth x) = password_auth-Keeps P stable free free_challenge host id x
  body-Keeps host id (bootstrap_device x) = bootstrap_device-Keeps P stable free host id x
  body-Keeps host id (change_password x) = change_password-Keeps P stable free host id x
  body-Keeps host id (lookup_user x) = lookup_user-Keeps P stable host id x
  body-Keeps host id (publish_pre_keys x) = publish_prekeys-Keeps P stable host id x
  body-Keeps host id (claim_pre_key x y) = claim_prekey-Keeps P stable host id x y
  body-Keeps host id (send_envelopes x) = send_envelopes-Keeps P stable host id x
  body-Keeps host id (sync_request x) = sync_request-Keeps P stable host id x
  body-Keeps host id (ack_envelope x) = ack_envelope-Keeps P stable host id x
  body-Keeps host id (pairing_event x) = pairing_event-Keeps P stable host id x
  body-Keeps host id (ack_pairing_event_frame x) = ack_pairing_event-Keeps P stable host id x
  body-Keeps host id (activate_device_frame x) = activate_device-Keeps P stable host id x
  body-Keeps host id list_own_devices = list_own_devices-Keeps P stable host id
  body-Keeps host id (revoke_own_device_frame x) = revoke_own_device-Keeps P stable host id x
  body-Keeps host id (ping x) = send-Keeps P stable host id (pong x)
  body-Keeps host id (pong x) = return-Keeps P tt
  body-Keeps host id (auth_challenge x) = fail-Keeps P _
  body-Keeps host id (authenticated x) = fail-Keeps P _
  body-Keeps host id (user_bundle x) = fail-Keeps P _
  body-Keeps host id (pre_key_bundle x y) = fail-Keeps P _
  body-Keeps host id (send_accepted x y) = fail-Keeps P _
  body-Keeps host id (sync_batch x) = fail-Keeps P _
  body-Keeps host id (delivery_update x) = fail-Keeps P _
  body-Keeps host id (pairing_request x) = fail-Keeps P _
  body-Keeps host id (own_device_list_frame x) = fail-Keeps P _
  body-Keeps host id (error x) = fail-Keeps P _
  body-Keeps host id operation_ok = fail-Keeps P _

  some-Keeps : (host : Host) (id : Text) (body : Option Body) → Keeps P (handle_some host id body)
  unfolding handle_some
  some-Keeps host id none = fail-Keeps P _
  some-Keeps host id (some body) = body-Keeps host id body

  -- The whole handler keeps an invariant that is stable and that no new session and no challenge
  -- breaks.
  pub frame-Keeps : (host : Host) (incoming : Frame) → Keeps P (handle_frame host incoming)
  unfolding handle_frame
  frame-Keeps host incoming = some-Keeps host incoming.id incoming.body

abbrev pub IsSound : State → Type 0
IsSound s = IsConsistent s.db

IsSound-IsStable : IsStable IsSound
IsSound-IsStable = record { live = λ s l v. v; db = λ s d f v. f v }

-- The state after a sequence of requests, each with what it finds around it. A request that is
-- answered by an error is followed by the next.
unfoldable pub serve : List (Host × Frame) → State → State
serve [] s = s
serve ((host, incoming) ∷ rest) s = serve rest (handle_frame host incoming s).0

-- Whatever frames a connection sends, in whatever order and with whatever answers, errors included,
-- tables that are consistent stay consistent: the usage table is exact, envelope ids are unique and
-- cursors rise.
pub serve-IsConsistent :
    (requests : List (Host × Frame)) (s : State)
    → IsConsistent s.db
    → IsConsistent (serve requests s).db
unfolding serve
serve-IsConsistent [] s v = v
serve-IsConsistent ((host, incoming) ∷ rest) s v =
    serve-IsConsistent rest (handle_frame host incoming s).0
      ((frame-Keeps IsSound IsSound-IsStable (λ s x v. v) (λ s x v. v) host incoming).kept s v)
