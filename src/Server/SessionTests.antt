-- ===== src/Server/SessionTests.antt =====
-- Runs of the request handling and of the loop, and the theorems on them at concrete data.
use tui_chat.Base.{
  ℕ, zero, suc, ◌≡◌, refl, Bool, true, false, [], ◌∷◌, Option, none, some, err, message, length,
  ltb, ◌==◌, nat_eq, list_eq, option_eq, bool_eq, find, update, all, select, count, is_some, not,
}
use tui_chat.Base.Text.{Bytes, text, to_ascii_lowercase}
use tui_chat.Protocol.Frames.{
  DeviceAuth, PasswordAuth, lookup_user, list_own_devices, device_auth, protocol_version,
}
use tui_chat.Server.Accounts.{normalize_username}
use tui_chat.Server.Db.Rows.{Account, DeviceRow, Db}
use tui_chat.Server.Db.Devices.{
  account_by_username, same_username, device, record_device_authentication, pending_devices,
}
use tui_chat.Server.Db.Pairing.{pending_pairing_events}
use tui_chat.Server.Db.Consistent.{IsConsistent}
use tui_chat.Server.Db.Samples.{
  alice, phone, account, bundle, db0, db0-IsConsistent, digest, limits,
}
use tui_chat.Server.Context.{Challenge, Session, Host, State, set_session}
use tui_chat.Server.Session.{
  take_valid_challenge, check_challenge, is_for_challenge, verify_signature, send, register_session,
  send_authenticated, write_audit,
}
use tui_chat.Server.Session.Auth.{
  handle_device_auth, answer_challenge, check_device, check_signature,
}
use tui_chat.Server.Session.Password.{handle_password_auth}
use tui_chat.Server.Session.Push.{push_post_auth, send_each}
use tui_chat.Server.Session.Handle.{handle_frame}
use tui_chat.Server.Connection.{
  report, send_error, received, pinged, ended, is_access_revoked, round, rounds,
}
use tui_chat.Server.Session.Gate.{IsRefused, handle_frame_unauthenticated, handle_frame_pending}
use tui_chat.Server.Session.Sound.{serve, serve-IsConsistent}
use tui_chat.Server.Session.Trust.{IsTrusted, handle_device_auth-IsTrusted}
use tui_chat.Server.Session.Once.{
  HasPending, take_valid_challenge_once, handle_password_auth-HasPending,
}
use tui_chat.Server.Connection
use tui_chat.Server.Connection.Access.{round_after_revoke}
use tui_chat.Server.Connection.Marked.{IsMarked, rounds-IsMarked}
use tui_chat.Server.Db.Cleanup.{revoke_own_device}
use tui_chat.Server.Tests.{one, nobody}

abbrev zeros : ℕ → Bytes
zeros zero = []
zeros (suc n) = 0 ∷ zeros n

-- Signatures of 64 bytes are right, and the password is "swordfish".
abbrev host : Host
host = record {
  token = 1;
  source_ip = 7;
  source_ip_text = text "7";
  now = 10;
  domain = text "chat";
  limits = limits;
  pairing_ttl_seconds = 60;
  free_disk_bytes = 9;
  dummy_password_phc = [];
  nonce = zeros 32;
  attempt_allowed = true;
  tx_open = true;
  is_open = λ token. true;
  parse_uuid = λ value. true;
  is_blank = λ value. length value == 0;
  sha256 = digest;
  is_key = λ key. true;
  verify_strict = λ key payload signature. length signature == 64;
  password_matches = λ phc password. password == text "swordfish";
  password_needs_rehash = λ phc. false;
  password_hash = λ password. some password;
}

abbrev ann : Account
ann = record (account alice) { username = text "ann" }

abbrev ann_phone : DeviceRow
ann_phone = record {
  account_id = alice;
  bundle = record (bundle phone) { auth_signing_key = zeros 32 };
  sas_public_key = [];
  pending = false;
  created_at_ms = 0;
  last_authenticated_at_ms = none;
}

abbrev with_ann : Db
with_ann = record db0 { accounts = ann ∷ []; devices = ann_phone ∷ [] }

abbrev challenge : Challenge
challenge = record {
  username = text "ann";
  device_id = phone;
  nonce = zeros 32;
  expires_at_ms = 20;
  capabilities = [];
}

abbrev session : Bool → Session
session pending = record {
  account = ann;
  device_id = phone;
  pending = pending;
  password_change_required = false;
  capabilities = [];
}

abbrev state : Option Session → State
state slot = record { db = with_ann; live = nobody; challenge = some challenge; session = slot }

abbrev signed : DeviceAuth
signed = record { username = text "Ann"; device_id = phone; signature = zeros 64 }

abbrev by_password : PasswordAuth
by_password = record { username = text "ann"; password = text "swordfish"; device_id = phone }

signed_in : (handle_device_auth host [] signed (state none)).0.session ≡ some (session false)
unfolding handle_device_auth answer_challenge check_device check_signature take_valid_challenge
    check_challenge is_for_challenge verify_signature send set_session register_session
    send_authenticated push_post_auth send_each write_audit account_by_username same_username device
    normalize_username find list_eq nat_eq to_ascii_lowercase text all pending_pairing_events select
    record_device_authentication pending_devices update
signed_in = refl

handle_device_auth-IsTrusted_example :
    (c : Challenge) × (a : Account) × (some challenge ≡ some c)
    × (c.device_id ≡ phone)
    × (ltb c.expires_at_ms 10 ≡ false)
    × IsTrusted host c signed with_ann a
handle_device_auth-IsTrusted_example =
    handle_device_auth-IsTrusted host [] signed (state none) (session false) refl signed_in

take_valid_challenge_once_example :
    ((handle_device_auth host [] signed (state none)).0.challenge ≡ none)
    × ((handle_password_auth host [] by_password (state none)).0.challenge ≡ none)
take_valid_challenge_once_example =
    take_valid_challenge_once host [] signed by_password (state none) refl

handle_password_auth-HasPending_example :
    HasPending (handle_password_auth host [] by_password (state none)).0
handle_password_auth-HasPending_example =
    handle_password_auth-HasPending host [] by_password (state none) refl

handle_frame_unauthenticated_example :
    IsRefused
      (handle_frame host (record { id = []; body = some (lookup_user (text "ann")) }))
      (state none)
handle_frame_unauthenticated_example =
    handle_frame_unauthenticated host [] (lookup_user (text "ann")) (state none) refl refl

handle_frame_pending_example :
    (handle_frame host
        (record { id = []; body = some list_own_devices })
        (state (some (session true)))
      ≡ (state (some (session true)), err (message "device approval is pending")))
    × (report host [] (
          handle_frame host
            (record { id = []; body = some list_own_devices })
            (state (some (session true))))
        ≡ send_error host []
            (text "request_rejected")
            (text "request rejected")
            false
            (state (some (session true))))
handle_frame_pending_example =
    handle_frame_pending host [] list_own_devices (state (some (session true))) (session true) refl
      refl refl

with_ann-IsConsistent : IsConsistent with_ann
with_ann-IsConsistent = record {
  accounted = db0-IsConsistent.accounted;
  unique = db0-IsConsistent.unique;
  ordered = db0-IsConsistent.ordered;
  updates_ordered = db0-IsConsistent.updates_ordered;
}

serve-IsConsistent_example :
    IsConsistent
      (serve
        ((host, record { id = []; body = some (lookup_user (text "ann")) })
          ∷ (host, record { id = []; body = some list_own_devices })
          ∷ [])
        (state (some (session false)))).db
serve-IsConsistent_example =
    serve-IsConsistent
      ((host, record { id = []; body = some (lookup_user (text "ann")) })
        ∷ (host, record { id = []; body = some list_own_devices })
        ∷ [])
      (state (some (session false))) with_ann-IsConsistent

-- The loop of ann's phone.
abbrev connected : Option Session → Connection.Connection
connected slot = record {
  state = state slot;
  admission = one;
  admitted_as_unauthenticated = not (is_some slot);
}

no_access : is_access_revoked db0 (some (session false)) ≡ true
unfolding is_access_revoked account_by_username same_username find to_ascii_lowercase text list_eq
    nat_eq Connection.is_account_active
no_access = refl

revoked_phone : (revoke_own_device with_ann alice phone).1 ≡ true
unfolding revoke_own_device count list_eq nat_eq
revoked_phone = refl

round_after_revoke_example :
    let db = (revoke_own_device with_ann alice phone).0 in
    let after : Connection.Connection = record (connected (some (session false))) {
      state = record (state (some (session false))) { db = db };
    } in
    let (c', goes_on) =
      round host true
        (received protocol_version (record { id = []; body = some list_own_devices }))
        after in
    (goes_on ≡ false) × (c'.state.db ≡ db) × (c'.state.session ≡ some (session false))
round_after_revoke_example =
    round_after_revoke host true (record { id = []; body = some list_own_devices })
      (connected (some (session false))) (session false) revoked_phone refl refl

rounds-IsMarked_example : IsMarked (
    rounds
      ((host, true, pinged 3)
        ∷ (host, true, received 2 (record { id = []; body = some (device_auth signed) }))
        ∷ (host, true, ended)
        ∷ [])
      (connected none))
rounds-IsMarked_example =
    rounds-IsMarked
      ((host, true, pinged 3)
        ∷ (host, true, received 2 (record { id = []; body = some (device_auth signed) }))
        ∷ (host, true, ended)
        ∷ [])
      (connected none) refl
