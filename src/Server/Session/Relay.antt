-- ===== src/Server/Session/Relay.antt =====
-- The handlers of crates/server/src/ws.rs for look-ups, prekeys, envelopes and acknowledgements.
use tui_chat.Base.{
  ℕ, ◌+◌, ◌*◌, ltb, leb, Bool, false, not, ◌&&◌, ◌||◌, List, [], ◌∷◌, Option, none, some, Result,
  ok, err, message, if◌then◌else◌, ◌==◌, ◌!=◌, list_eq, nat_eq, bool_eq, option_eq, length, any,
  all, unwrap_or, map_option, find, first, last,
}
use tui_chat.Base.Text.{Bytes, Text}
use tui_chat.Base.Int.{pos, ltb_ℤ, int_eq}
use tui_chat.Protocol.Messages.{OneTimeKey, EncryptedEnvelope, StoredEnvelope}
use tui_chat.Protocol.Frames.{
  SyncRequest, user_bundle, pre_key_bundle, send_accepted, sync_batch, delivery_update,
  operation_ok,
}
use tui_chat.Server.Accounts.{normalize_username}
use tui_chat.Server.Db.Rows.{Db}
use tui_chat.Server.Db.Devices.{device, lookup_user_bundle}
use tui_chat.Server.Db.Prekeys.{publish_prekeys, claim_prekey}
use tui_chat.Server.Db.Store.{store_envelopes}
use tui_chat.Server.Db.Delivery.{sync, ack, stored_envelope}
use tui_chat.Server.Db.Delivery.Paging.{next_cursor}
use tui_chat.Server.Live.{Live, push_device, push_account}
use tui_chat.Server.Context.{
  Host, Handler, ◌>>=◌, ◌>>◌, lift, return_, gets, need, reject_if, on_live, transact, run_db,
  commit,
}
use tui_chat.Server.Session.{send, valid_uuid, verify_prekey, usable_session}

abbrev pub ok_frame : Host → Text → Handler (Unit {0})
ok_frame host id = send host id operation_ok

-- An acknowledgement is confirmed if the request has an id.
abbrev pub confirm : Host → Text → Handler (Unit {0})
confirm host id = if length id == 0 then return_ tt else ok_frame host id

unfoldable pub handle_lookup_user : Host → Text → Text → Handler (Unit {0})
handle_lookup_user host id exact_username = do
  session ← usable_session
  username ← lift (normalize_username exact_username)
  found ← gets (λ s. lookup_user_bundle s.db username)
  (account, devices) ← need found (message "user not found")
  send host id (
      user_bundle (record {
        account_id = account.id;
        username = account.username;
        account_master_key = unwrap_or account.master_public_key [];
        roster_revision = account.roster_revision;
        devices = devices;
      }))

unfoldable pub check_prekeys : Host → Bytes → List OneTimeKey → Result (Unit {0})
check_prekeys host auth_key [] = ok tt
check_prekeys host auth_key (key ∷ keys) =
    let rest = check_prekeys host auth_key keys in
    if length key.key_id == 0
      || ltb 64 (length key.key_id)
      || length key.curve25519_key != 32
      || length key.signature != 64
    then err (message "invalid prekey fields")
    else elim (verify_prekey host auth_key key) [ err e ↦ err e | ok u ↦ rest ]

unfoldable pub handle_publish_prekeys : Host → Text → List OneTimeKey → Handler (Unit {0})
handle_publish_prekeys host id keys = do
  session ← usable_session
  reject_if (ltb 100 (length keys)) (message "too many prekeys")
  db ← gets (λ s. s.db)
  found ← need (device db session.account.id session.device_id) (message "device missing")
  lift (check_prekeys host found.auth_signing_key keys)
  commit (λ db. publish_prekeys db session.device_id keys host.now)
  ok_frame host id

unfoldable pub handle_claim_prekey : Host → Text → Text → Text → Handler (Unit {0})
handle_claim_prekey host id account_id device_id = do
  session ← usable_session
  reject_if (not (valid_uuid host account_id) || not (valid_uuid host device_id))
      (message "invalid prekey target")
  claimed ← run_db (λ db. claim_prekey db account_id device_id)
  (bundle, key) ← need claimed (message "recipient has no available prekey")
  send host id (pre_key_bundle bundle key)

unfoldable pub is_hex_digit : ℕ → Bool
is_hex_digit b = leb b'0' b && leb b b'9' || leb b'a' b && leb b b'f' || leb b'A' b && leb b b'F'

unfoldable pub is_bad_request : Host → EncryptedEnvelope → Bool
is_bad_request host e =
    not (valid_uuid host e.envelope_id)
    || not (valid_uuid host e.logical_message_id)
    || not (valid_uuid host e.recipient_account_id)
    || not (valid_uuid host e.recipient_device_id)
    || length e.conversation_id != 64
    || not (all is_hex_digit e.conversation_id)
    || ltb_ℤ e.client_sent_at_ms (pos 0)
    || ltb_ℤ (pos (host.now + 5 * 60 * 1000)) e.client_sent_at_ms

unfoldable pub push_stored : StoredEnvelope → Text → Live → Live
push_stored stored target live =
    push_device target
      (record {
        id = [];
        body = some (
            sync_batch (record {
              envelopes = stored ∷ [];
              next_cursor = stored.cursor;
              has_more = false;
              delivery_updates = [];
              next_status_cursor = 0;
            }));
      })
      live

-- One round of the loop over the destinations: the first envelope of the batch to the device.
unfoldable pub push_destination : List EncryptedEnvelope → Db → Text → Live → Live
unfolding push_stored
push_destination envelopes db target live =
    elim (find (λ e. e.recipient_device_id == target) envelopes) [
      | none ↦ live
      | some e ↦ elim (stored_envelope db e.envelope_id) [
        | none ↦ live
        | some stored ↦ push_stored stored target live
      ]
    ]

unfoldable pub push_destinations : List EncryptedEnvelope → Db → List (Text × ℕ) → Live → Live
push_destinations envelopes db [] live = live
push_destinations envelopes db ((target, cursor) ∷ rest) live =
    push_destinations envelopes db rest (push_destination envelopes db target live)

unfoldable pub handle_send_envelopes : Host → Text → List EncryptedEnvelope → Handler (Unit {0})
handle_send_envelopes host id envelopes = do
  session ← usable_session
  reject_if session.password_change_required (message "password change is required before sending")
  reject_if (any (is_bad_request host) envelopes) (message "invalid encrypted envelope fields")
  destinations ← transact (λ db.
      store_envelopes host.sha256 host.free_disk_bytes db session.account.id session.device_id
        envelopes host.now host.limits)
  db ← gets (λ s. s.db)
  on_live (push_destinations envelopes db destinations)
  send host id (
      send_accepted (unwrap_or (map_option (λ e. e.logical_message_id) (first envelopes)) [])
        host.now)

unfoldable pub handle_sync_request : Host → Text → SyncRequest → Handler (Unit {0})
handle_sync_request host id request = do
  session ← usable_session
  page ← gets (λ s.
      sync s.db session.account.id session.device_id request.after_cursor
        request.after_status_cursor request.limit)
  send host id (
      sync_batch (record {
        envelopes = page.envelopes;
        next_cursor = next_cursor request.after_cursor page.envelopes;
        has_more = page.has_more;
        delivery_updates = page.statuses;
        next_status_cursor =
            unwrap_or (map_option (λ u. u.cursor) (last page.statuses)) request.after_status_cursor;
      }))

unfoldable pub tell_sender : Host → Option (Text × Text) → Live → Live
tell_sender host told live = elim told [
  | none ↦ live
  | some (sender, logical) ↦
      push_account sender
        (record {
          id = [];
          body = some (
              delivery_update
                (record { logical_message_id = logical; delivered_at_ms = host.now }));
        })
        live
]

unfoldable pub handle_ack_envelope : Host → Text → Text → Handler (Unit {0})
handle_ack_envelope host id envelope_id = do
  session ← usable_session
  reject_if (not (valid_uuid host envelope_id)) (message "invalid envelope acknowledgement")
  told ← run_db (λ db. ack db session.device_id envelope_id host.now)
  on_live (tell_sender host told)
  confirm host id
