-- ===== src/Server/Session/Gate.antt =====
-- Which frames the server in crates/server/src/ws.rs handles before a device is active.
use tui_chat.Base.{
  nat_eq, ap, ◌∙◌, ◌≡◌, refl, Bool, true, false, none, some, Result, ok, err, message,
}
use tui_chat.Base.Text.{Text, text}
use tui_chat.Server.Connection.{report, send_error}
use tui_chat.Server.Errors.{starts_with, public_error, first_rule, contains}
use tui_chat.Protocol.Frames.{
  Body, client_hello, auth_challenge, device_auth, password_auth, authenticated, bootstrap_device,
  change_password, lookup_user, user_bundle, publish_pre_keys, claim_pre_key, pre_key_bundle,
  send_envelopes, send_accepted, sync_request, sync_batch, ack_envelope, delivery_update,
  pairing_request, pairing_event, activate_device_frame, ack_pairing_event_frame, list_own_devices,
  own_device_list_frame, revoke_own_device_frame, error, ping, pong, operation_ok,
}
use tui_chat.Server.Context.{Session, Host, State, Handler}
use tui_chat.Server.Session.{active_session, usable_session}
use tui_chat.Server.Session.Enroll.{handle_bootstrap_device, handle_change_password}
use tui_chat.Server.Session.Relay.{
  handle_lookup_user, handle_publish_prekeys, handle_claim_prekey, handle_send_envelopes,
  handle_sync_request, handle_ack_envelope,
}
use tui_chat.Server.Session.Devices.{
  handle_pairing_event, handle_ack_pairing_event, handle_activate_device, handle_list_own_devices,
  handle_revoke_own_device,
}
use tui_chat.Server.Session.Handle.{handle_body, handle_some, handle_frame}

-- The frames that are handled for anyone.
abbrev pub is_public : Body → Bool
is_public (client_hello hello) = true
is_public (device_auth auth) = true
is_public (password_auth auth) = true
is_public (ping t) = true
is_public (pong t) = true
is_public body = false

abbrev pub is_err {ℓ} : {A : Type ℓ} → Result A → Bool
is_err (ok a) = false
is_err (err e) = true

abbrev pub IsRefused : Handler (Unit {0}) → State → Type 0
IsRefused h s = ((h s).0 ≡ s) × (is_err (h s).1 ≡ true)

active_none :
    (s : State) → s.session ≡ none → active_session s ≡ (s, err (message "authentication required"))
unfolding active_session
active_none s h = rw h refl

body-IsRefused :
    (host : Host) (id : Text) (body : Body) (s : State)
    → s.session ≡ none
    → is_public body ≡ false
    → IsRefused (handle_body host id body) s
unfolding handle_body usable_session handle_bootstrap_device handle_change_password
    handle_lookup_user handle_publish_prekeys handle_claim_prekey handle_send_envelopes
    handle_sync_request handle_ack_envelope handle_pairing_event handle_ack_pairing_event
    handle_activate_device handle_list_own_devices handle_revoke_own_device
body-IsRefused host id (client_hello x) s h p = cc
body-IsRefused host id (device_auth x) s h p = cc
body-IsRefused host id (password_auth x) s h p = cc
body-IsRefused host id (ping x) s h p = cc
body-IsRefused host id (pong x) s h p = cc
body-IsRefused host id (bootstrap_device b) s h p = rw h (refl, refl)
body-IsRefused host id (change_password c) s h p = rw (active_none s h) (refl, refl)
body-IsRefused host id (lookup_user u) s h p = rw (active_none s h) (refl, refl)
body-IsRefused host id (publish_pre_keys ks) s h p = rw (active_none s h) (refl, refl)
body-IsRefused host id (claim_pre_key a d) s h p = rw (active_none s h) (refl, refl)
body-IsRefused host id (send_envelopes es) s h p = rw (active_none s h) (refl, refl)
body-IsRefused host id (sync_request r) s h p = rw (active_none s h) (refl, refl)
body-IsRefused host id (ack_envelope e) s h p = rw (active_none s h) (refl, refl)
body-IsRefused host id (pairing_event e) s h p = rw h (refl, refl)
body-IsRefused host id (ack_pairing_event_frame e) s h p = rw h (refl, refl)
body-IsRefused host id (activate_device_frame a) s h p = rw (active_none s h) (refl, refl)
body-IsRefused host id list_own_devices s h p = rw (active_none s h) (refl, refl)
body-IsRefused host id (revoke_own_device_frame d) s h p = rw (active_none s h) (refl, refl)
body-IsRefused host id (auth_challenge c) s h p = (refl, refl)
body-IsRefused host id (authenticated a) s h p = (refl, refl)
body-IsRefused host id (user_bundle b) s h p = (refl, refl)
body-IsRefused host id (pre_key_bundle d k) s h p = (refl, refl)
body-IsRefused host id (send_accepted l t) s h p = (refl, refl)
body-IsRefused host id (sync_batch b) s h p = (refl, refl)
body-IsRefused host id (delivery_update u) s h p = (refl, refl)
body-IsRefused host id (pairing_request r) s h p = (refl, refl)
body-IsRefused host id (own_device_list_frame ds) s h p = (refl, refl)
body-IsRefused host id (error e) s h p = (refl, refl)
body-IsRefused host id operation_ok s h p = (refl, refl)

-- Before a connection has a session, every frame but ClientHello, DeviceAuth, PasswordAuth, Ping
-- and Pong is refused with an error, and the database, the live connections, the challenge and the
-- session stay as they are.
pub handle_frame_unauthenticated :
    (host : Host) (id : Text) (body : Body) (s : State)
    → s.session ≡ none
    → is_public body ≡ false
    → IsRefused (handle_frame host (record { id = id; body = some body })) s
unfolding handle_frame handle_some
handle_frame_unauthenticated host id body s h p = body-IsRefused host id body s h p

-- The frames that only the session of an approved device may send.
abbrev pub needs_active : Body → Bool
needs_active (change_password c) = true
needs_active (lookup_user u) = true
needs_active (publish_pre_keys ks) = true
needs_active (claim_pre_key a d) = true
needs_active (send_envelopes es) = true
needs_active (sync_request r) = true
needs_active (ack_envelope e) = true
needs_active (activate_device_frame a) = true
needs_active list_own_devices = true
needs_active (revoke_own_device_frame d) = true
needs_active body = false

active_pending :
    (s : State) (x : Session)
    → s.session ≡ some x
    → x.pending ≡ true
    → active_session s ≡ (s, err (message "device approval is pending"))
unfolding active_session
active_pending s x h p = rw (h, p) refl

pending_body :
    (host : Host) (id : Text) (body : Body) (s : State) (x : Session)
    → s.session ≡ some x
    → x.pending ≡ true
    → needs_active body ≡ true
    → handle_body host id body s ≡ (s, err (message "device approval is pending"))
unfolding handle_body usable_session handle_change_password handle_lookup_user
    handle_publish_prekeys handle_claim_prekey handle_send_envelopes handle_sync_request
    handle_ack_envelope handle_activate_device handle_list_own_devices handle_revoke_own_device
pending_body host id (change_password c) s x h p n = rw (active_pending s x h p) refl
pending_body host id (lookup_user u) s x h p n = rw (active_pending s x h p) refl
pending_body host id (publish_pre_keys ks) s x h p n = rw (active_pending s x h p) refl
pending_body host id (claim_pre_key a d) s x h p n = rw (active_pending s x h p) refl
pending_body host id (send_envelopes es) s x h p n = rw (active_pending s x h p) refl
pending_body host id (sync_request r) s x h p n = rw (active_pending s x h p) refl
pending_body host id (ack_envelope e) s x h p n = rw (active_pending s x h p) refl
pending_body host id (activate_device_frame a) s x h p n = rw (active_pending s x h p) refl
pending_body host id list_own_devices s x h p n = rw (active_pending s x h p) refl
pending_body host id (revoke_own_device_frame d) s x h p n = rw (active_pending s x h p) refl
pending_body host id (client_hello x1) s x h p n = cc
pending_body host id (device_auth x1) s x h p n = cc
pending_body host id (password_auth x1) s x h p n = cc
pending_body host id (ping x1) s x h p n = cc
pending_body host id (pong x1) s x h p n = cc
pending_body host id (bootstrap_device x1) s x h p n = cc
pending_body host id (pairing_event x1) s x h p n = cc
pending_body host id (ack_pairing_event_frame x1) s x h p n = cc
pending_body host id (auth_challenge x1) s x h p n = cc
pending_body host id (authenticated x1) s x h p n = cc
pending_body host id (user_bundle x1) s x h p n = cc
pending_body host id (pre_key_bundle x1 x2) s x h p n = cc
pending_body host id (send_accepted x1 x2) s x h p n = cc
pending_body host id (sync_batch x1) s x h p n = cc
pending_body host id (delivery_update x1) s x h p n = cc
pending_body host id (pairing_request x1) s x h p n = cc
pending_body host id (own_device_list_frame x1) s x h p n = cc
pending_body host id (error x1) s x h p n = cc
pending_body host id operation_ok s x h p n = cc

not_told :
    (host : Host) (id : Text) (s : State)
    → report host id (s, err (message "device approval is pending"))
      ≡ send_error host id (text "request_rejected") (text "request rejected") false s
unfolding report public_error first_rule contains starts_with text nat_eq
not_told host id s = refl

-- A device that waits for approval cannot change the password, look users up, publish or claim
-- prekeys, send, fetch or acknowledge envelopes, nor approve, list or revoke devices: `handle_frame`
-- fails for such a frame with the error for a pending approval and changes nothing, and what is sent
-- to the device is that its request is rejected.
pub handle_frame_pending :
    (host : Host) (id : Text) (body : Body) (s : State) (x : Session)
    → s.session ≡ some x
    → x.pending ≡ true
    → needs_active body ≡ true
    → (handle_frame host (record { id = id; body = some body }) s
        ≡ (s, err (message "device approval is pending")))
      × (report host id (handle_frame host (record { id = id; body = some body }) s)
          ≡ send_error host id (text "request_rejected") (text "request rejected") false s)
unfolding handle_frame handle_some
handle_frame_pending host id body s x h p n =
    let e = pending_body host id body s x h p n in (e, ap (report host id) e ∙ not_told host id s)
