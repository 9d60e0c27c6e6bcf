-- ===== src/Server/Session/Handle.antt =====
-- `handle_frame` of crates/server/src/ws.rs: which handler a frame goes to.
use tui_chat.Base.{Option, none, some, message}
use tui_chat.Base.Text.{Text}
use tui_chat.Protocol.Frames.{
  Frame, Body, client_hello, auth_challenge, device_auth, password_auth, authenticated,
  bootstrap_device, change_password, lookup_user, user_bundle, publish_pre_keys, claim_pre_key,
  pre_key_bundle, send_envelopes, send_accepted, sync_request, sync_batch, ack_envelope,
  delivery_update, pairing_request, pairing_event, activate_device_frame, ack_pairing_event_frame,
  list_own_devices, own_device_list_frame, revoke_own_device_frame, error, ping, pong, operation_ok,
}
use tui_chat.Server.Context.{Host, Handler, return_, fail}
use tui_chat.Server.Session.{send}
use tui_chat.Server.Session.Auth.{handle_client_hello, handle_device_auth}
use tui_chat.Server.Session.Password.{handle_password_auth}
use tui_chat.Server.Session.Enroll.{handle_bootstrap_device, handle_change_password}
use tui_chat.Server.Session.Relay.{
  handle_lookup_user, handle_publish_prekeys, handle_claim_prekey, handle_send_envelopes,
  handle_sync_request, handle_ack_envelope,
}
use tui_chat.Server.Session.Devices.{
  handle_pairing_event, handle_ack_pairing_event, handle_activate_device, handle_list_own_devices,
  handle_revoke_own_device,
}

abbrev wrong_direction : Handler (Unit {0})
wrong_direction = fail (message "frame type is not valid in this direction")

unfoldable pub handle_body : Host → Text → Body → Handler (Unit {0})
handle_body host id (client_hello hello) = handle_client_hello host id hello
handle_body host id (device_auth auth) = handle_device_auth host id auth
handle_body host id (password_auth auth) = handle_password_auth host id auth
handle_body host id (bootstrap_device b) = handle_bootstrap_device host id b
handle_body host id (change_password change) = handle_change_password host id change
handle_body host id (lookup_user username) = handle_lookup_user host id username
handle_body host id (publish_pre_keys keys) = handle_publish_prekeys host id keys
handle_body host id (claim_pre_key account device) = handle_claim_prekey host id account device
handle_body host id (send_envelopes envelopes) = handle_send_envelopes host id envelopes
handle_body host id (sync_request request) = handle_sync_request host id request
handle_body host id (ack_envelope envelope) = handle_ack_envelope host id envelope
handle_body host id (pairing_event event) = handle_pairing_event host id event
handle_body host id (ack_pairing_event_frame event) = handle_ack_pairing_event host id event
handle_body host id (activate_device_frame activate) = handle_activate_device host id activate
handle_body host id list_own_devices = handle_list_own_devices host id
handle_body host id (revoke_own_device_frame device) = handle_revoke_own_device host id device
handle_body host id (ping sent_at) = send host id (pong sent_at)
handle_body host id (pong sent_at) = return_ tt
handle_body host id (auth_challenge c) = wrong_direction
handle_body host id (authenticated a) = wrong_direction
handle_body host id (user_bundle b) = wrong_direction
handle_body host id (pre_key_bundle d k) = wrong_direction
handle_body host id (send_accepted l t) = wrong_direction
handle_body host id (sync_batch b) = wrong_direction
handle_body host id (delivery_update u) = wrong_direction
handle_body host id (pairing_request r) = wrong_direction
handle_body host id (own_device_list_frame ds) = wrong_direction
handle_body host id (error e) = wrong_direction
handle_body host id operation_ok = wrong_direction

unfoldable pub handle_some : Host → Text → Option Body → Handler (Unit {0})
unfolding handle_body
handle_some host id none = fail (message "empty frame")
handle_some host id (some body) = handle_body host id body

unfoldable pub handle_frame : Host → Frame → Handler (Unit {0})
unfolding handle_some
handle_frame host incoming = handle_some host incoming.id incoming.body
