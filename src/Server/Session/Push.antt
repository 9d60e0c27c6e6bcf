-- ===== src/Server/Session/Push.antt =====
-- What the server in crates/server/src/ws.rs sends after an authentication, and the device list.
use tui_chat.Base.{
  ltb, Bool, true, List, [], ◌∷◌, map, if◌then◌else◌, ◌==◌, ◌!=◌, list_eq, nat_eq, bool_eq,
  option_eq, any, unwrap_or, select, sort_by,
}
use tui_chat.Base.Text.{Bytes, Text}
use tui_chat.Base.Int.{int_eq}
use tui_chat.Base.Maps.{get, insert}
use tui_chat.Protocol.Messages.{DeviceBundle, OwnDeviceInfo}
use tui_chat.Protocol.Frames.{Body, pairing_request, pairing_event}
use tui_chat.Server.Db.Rows.{PairingRow}
use tui_chat.Server.Db.Devices.{device, device_bundles, pending_devices, own_devices}
use tui_chat.Server.Db.Pairing.{pending_pairing_events}
use tui_chat.Server.Live.{online_devices}
use tui_chat.Server.Context.{Session, Host, Handler, ◌>>=◌, ◌>>◌, return_, gets}
use tui_chat.Server.Session.{send}

-- The map from the ids of devices to their names.
unfoldable pub device_names : List DeviceBundle → List (Text × Text) → List (Text × Text)
device_names [] names = names
device_names (d ∷ ds) names = device_names ds (insert d.device_id d.device_name names)

-- The UTF-8 bytes of "未知设备".
abbrev unknown_device : Text
unknown_device = 230 ∷ 156 ∷ 170 ∷ 231 ∷ 159 ∷ 165 ∷ 232 ∷ 174 ∷ 190 ∷ 229 ∷ 164 ∷ 135 ∷ []

unfoldable pub event_body : Text → List (Text × Text) → PairingRow → Body
event_body device names event = pairing_event (record {
  pairing_id = event.pairing_id;
  target_device_id = device;
  event_type = event.event_type;
  payload = event.payload;
  sender_device_id = event.sender_device_id;
  server_event_id = event.id;
  sender_device_name = unwrap_or (get event.sender_device_id names) unknown_device;
})

unfoldable pub request_body : DeviceBundle × Bytes → Body
request_body (bundle, sas) = pairing_request (record {
  pairing_id = bundle.device_id;
  pending_device_id = bundle.device_id;
  pending_device_name = bundle.device_name;
  sas_public_key = sas;
  pending_device = bundle;
})

unfoldable pub send_each : Host → List Body → Handler (Unit {0})
send_each host [] = return_ tt
send_each host (b ∷ bs) = do send host [] b; send_each host bs

unfoldable pub push_post_auth : Host → Session → Handler (Unit {0})
push_post_auth host session = do
  db ← gets (λ s. s.db)
  let names = device_names (device_bundles db session.account.id true) []
  send_each host (
      map (event_body session.device_id names)
        (pending_pairing_events db session.device_id host.now))
  send_each host (
      map request_body
        (select (λ p. p.0.device_id != session.device_id) (pending_devices db session.account.id)))

unfoldable pub with_presence : Text → List Text → OwnDeviceInfo → OwnDeviceInfo
with_presence current online d = record d {
  current = d.device_id == current;
  online = any (λ id. id == d.device_id) online;
}

-- The order of the keys `(!current, revoked, pending, created_at_ms)`.
unfoldable pub shown_before : OwnDeviceInfo → OwnDeviceInfo → Bool
shown_before a b =
    if a.current != b.current
    then a.current
    else if a.revoked != b.revoked
    then b.revoked
    else if a.pending != b.pending
    then b.pending
    else ltb a.created_at_ms b.created_at_ms

unfoldable pub own_device_list : Text → Text → Handler (List OwnDeviceInfo)
own_device_list account current = do
  online ← gets (λ s. online_devices account s.live)
  devices ← gets (λ s. own_devices s.db account)
  return_ (sort_by shown_before (map (with_presence current online) devices))
