-- ===== src/Server/Session/Sound/Requests.antt =====
-- The handlers of crates/server/src/ws.rs for requests, step by step, under an invariant of the
-- state.
use tui_chat.Base.{ℕ, List, list_eq, nat_eq, bool_eq, option_eq}
use tui_chat.Base.Text.{Bytes, Text}
use tui_chat.Base.Int.{int_eq}
use tui_chat.Protocol.Messages.{OneTimeKey, EncryptedEnvelope}
use tui_chat.Protocol.Frames.{SyncRequest, PairingEvent, ActivateDevice}
use tui_chat.Server.Db.Devices.{device, activate_device}
use tui_chat.Server.Db.Prekeys.{publish_prekeys, claim_prekey}
use tui_chat.Server.Db.Store.{store_envelopes}
use tui_chat.Server.Db.Delivery.{ack}
use tui_chat.Server.Db.Cleanup.{revoke_own_device}
use tui_chat.Server.Db.Pairing.{insert_pairing_event, ack_pairing_event}
use tui_chat.Server.Context.{Host, State, transact, run_db, commit}
use tui_chat.Server.Session.Keeps.{Keeps, IsStable, steps, run-Keeps, transact-Keeps, commit-Keeps}
use tui_chat.Server.Db.Delivery.Acknowledge.{ack-IsConsistent}
use tui_chat.Server.Db.Store.Consistency.{store_envelopes-IsConsistent}
use tui_chat.Server.Db.Cleanup.Consistency.{revoke_own_device-IsConsistent}
use tui_chat.Server.Db.Unrelated.{
  activate_device-IsConsistent, publish_prekeys-IsConsistent, insert_pairing_event-IsConsistent,
  ack_pairing_event-IsConsistent, claim_prekey-IsConsistent,
}
use tui_chat.Server.Session.Push.{own_device_list}
use tui_chat.Server.Session.Relay.{
  handle_lookup_user, handle_publish_prekeys, handle_claim_prekey, handle_send_envelopes,
  handle_sync_request, handle_ack_envelope,
}
use tui_chat.Server.Session.Devices.{
  handle_pairing_event, handle_ack_pairing_event, handle_activate_device, handle_list_own_devices,
  handle_revoke_own_device,
}

module _ (P : State → Type 0) (stable : IsStable P) where
  pub lookup_user-Keeps :
      (host : Host) (id : Text) (username : Text) → Keeps P (handle_lookup_user host id username)
  unfolding handle_lookup_user
  lookup_user-Keeps host id username = search steps depth 20

  publish-Keeps :
      (device : Text) (keys : List OneTimeKey) (now : ℕ)
      → Keeps P (commit (λ db. publish_prekeys db device keys now))
  publish-Keeps device keys now =
      commit-Keeps P stable _ (publish_prekeys-IsConsistent device keys now)

  pub publish_prekeys-Keeps :
      (host : Host) (id : Text) (keys : List OneTimeKey)
      → Keeps P (handle_publish_prekeys host id keys)
  unfolding handle_publish_prekeys
  publish_prekeys-Keeps host id keys = search (steps, publish-Keeps) depth 20

  claim-Keeps : (account device : Text) → Keeps P (run_db (λ db. claim_prekey db account device))
  claim-Keeps account device = run-Keeps P stable _ (claim_prekey-IsConsistent account device)

  pub claim_prekey-Keeps :
      (host : Host) (id account device : Text)
      → Keeps P (handle_claim_prekey host id account device)
  unfolding handle_claim_prekey
  claim_prekey-Keeps host id account device = search (steps, claim-Keeps) depth 20

  store-Keeps :
      (host : Host) (account device : Text) (envelopes : List EncryptedEnvelope)
      → Keeps P (
          transact (λ db.
            store_envelopes host.sha256 host.free_disk_bytes db account device envelopes host.now
              host.limits))
  store-Keeps host account device envelopes = transact-Keeps P stable _ (λ db db' r h v.
      store_envelopes-IsConsistent host.sha256 host.free_disk_bytes db account device envelopes
        host.now host.limits db' r v h)

  pub send_envelopes-Keeps :
      (host : Host) (id : Text) (envelopes : List EncryptedEnvelope)
      → Keeps P (handle_send_envelopes host id envelopes)
  unfolding handle_send_envelopes
  send_envelopes-Keeps host id envelopes = search (steps, store-Keeps) depth 20

  pub sync_request-Keeps :
      (host : Host) (id : Text) (request : SyncRequest)
      → Keeps P (handle_sync_request host id request)
  unfolding handle_sync_request
  sync_request-Keeps host id request = search steps depth 20

  ack-Keeps : (device id : Text) (now : ℕ) → Keeps P (run_db (λ db. ack db device id now))
  ack-Keeps device id now = run-Keeps P stable _ (λ db v. ack-IsConsistent db device id now v)

  pub ack_envelope-Keeps :
      (host : Host) (id : Text) (envelope : Text) → Keeps P (handle_ack_envelope host id envelope)
  unfolding handle_ack_envelope
  ack_envelope-Keeps host id envelope = search (steps, ack-Keeps) depth 20

  event-Keeps :
      (pairing sender target event_type : Text) (payload : Bytes) (expires : ℕ)
      → Keeps P (
          transact (λ db. insert_pairing_event db pairing sender target event_type payload expires))
  event-Keeps pairing sender target event_type payload expires =
      transact-Keeps P stable _
        (insert_pairing_event-IsConsistent pairing sender target event_type payload expires)

  pub pairing_event-Keeps :
      (host : Host) (id : Text) (event : PairingEvent)
      → Keeps P (handle_pairing_event host id event)
  unfolding handle_pairing_event
  pairing_event-Keeps host id event = search (steps, event-Keeps) depth 40

  ack_event-Keeps :
      (device : Text) (event : ℕ) → Keeps P (run_db (λ db. ack_pairing_event db device event))
  ack_event-Keeps device event = run-Keeps P stable _ (ack_pairing_event-IsConsistent device event)

  pub ack_pairing_event-Keeps :
      (host : Host) (id : Text) (event : ℕ) → Keeps P (handle_ack_pairing_event host id event)
  unfolding handle_ack_pairing_event
  ack_pairing_event-Keeps host id event = search (steps, ack_event-Keeps) depth 20

  activate-Keeps :
      (account device : Text) (revision : ℕ) (signature : Bytes)
      → Keeps P (commit (λ db. activate_device db account device revision signature))
  activate-Keeps account device revision signature =
      commit-Keeps P stable _ (activate_device-IsConsistent account device revision signature)

  pub activate_device-Keeps :
      (host : Host) (id : Text) (activate : ActivateDevice)
      → Keeps P (handle_activate_device host id activate)
  unfolding handle_activate_device
  activate_device-Keeps host id activate = search (steps, activate-Keeps) depth 40

  pub list_own_devices-Keeps : (host : Host) (id : Text) → Keeps P (handle_list_own_devices host id)
  unfolding handle_list_own_devices own_device_list
  list_own_devices-Keeps host id = search steps depth 20

  revoke-Keeps :
      (account device : Text) → Keeps P (run_db (λ db. revoke_own_device db account device))
  revoke-Keeps account device =
      run-Keeps P stable _ (λ db v. revoke_own_device-IsConsistent db account device v)

  pub revoke_own_device-Keeps :
      (host : Host) (id device : Text) → Keeps P (handle_revoke_own_device host id device)
  unfolding handle_revoke_own_device own_device_list
  revoke_own_device-Keeps host id device = search (steps, revoke-Keeps) depth 40
