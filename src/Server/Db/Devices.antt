-- ===== src/Server/Db/Devices.antt =====
-- Accounts and devices in crates/server/src/db.rs.

pub mod Roster
use tui_chat.Base.{
  ℕ, ◌+◌, ltb, Bool, false, not, ◌&&◌, ◌||◌, List, [], ◌∷◌, map, ◌++◌, Option, none, some, Result,
  ok, message, constraint, ◌>>=◌, ◌>>◌, bail_if, ok_or, if◌then◌else◌, ◌==◌, ◌!=◌, list_eq, nat_eq,
  find, is_some, unwrap_or, map_option, sort_by, bool_eq, select, any, update, count,
}
use tui_chat.Base.Text.{Bytes, Text, text, to_ascii_lowercase}
use tui_chat.Protocol.Messages.{DeviceBundle, OwnDeviceInfo}
use tui_chat.Server.Db.Rows.{Account, Device, DeviceRow, Db}

-- `username = ? COLLATE NOCASE`
unfoldable pub same_username : Text → Account → Bool
same_username username a = to_ascii_lowercase a.username == to_ascii_lowercase username

unfoldable pub account_by_username : Db → Text → Option Account
account_by_username db username = find (same_username username) db.accounts

abbrev pub device_id : DeviceRow → Text
device_id d = d.bundle.device_id

abbrev pub is_device : Text → Text → DeviceRow → Bool
is_device account id d = d.account_id == account && device_id d == id

abbrev pub is_active : DeviceRow → Bool
is_active d = not d.pending && not d.bundle.revoked

unfoldable pub device : Db → Text → Text → Option Device
device db account_id id =
    map_option
      (λ d. record {
        auth_signing_key = d.bundle.auth_signing_key;
        pending = d.pending;
        revoked = d.bundle.revoked;
      })
      (find (is_device account_id id) db.devices)

unfoldable pub has_active_devices : Db → Text → Bool
has_active_devices db account_id =
    ltb 0 (count (λ d. d.account_id == account_id && is_active d) db.devices)

-- The active and the pending devices.
unfoldable pub device_counts : Db → Text → ℕ × ℕ
device_counts db account_id = (
  count (λ d. d.account_id == account_id && is_active d) db.devices,
  count (λ d. d.account_id == account_id && (d.pending && not d.bundle.revoked)) db.devices,
)

unfoldable pub device_bundles : Db → Text → Bool → List DeviceBundle
device_bundles db account_id include_pending =
    map (λ d. d.bundle)
      (select (λ d. d.account_id == account_id && (include_pending || not d.pending)) db.devices)

unfoldable pub device_account_any : Db → Text → Option Text
device_account_any db id =
    map_option (λ d. d.account_id)
      (find (λ d. device_id d == id && not d.bundle.revoked) db.devices)

-- `REFERENCES accounts(id)` and `REFERENCES devices(id)`
abbrev pub has_account : Db → Text → Bool
has_account db account = any (λ a. a.id == account) db.accounts

abbrev pub has_device : Db → Text → Bool
has_device db id = any (λ d. device_id d == id) db.devices

unfoldable pub insert_device : Db → Text → DeviceBundle → Bytes → Bool → ℕ → Result Db
insert_device db account_id bundle sas_public pending now = do
  bail_if (has_device db bundle.device_id || not (has_account db account_id)) constraint
  ok (record db {
    devices =
        db.devices
        ++ (record {
          account_id = account_id;
          bundle = record bundle { revoked = false };
          sas_public_key = sas_public;
          pending = pending;
          created_at_ms = now;
          last_authenticated_at_ms = none;
        }
            ∷ []);
  })

-- `id = ? AND master_public_key IS NULL`
unfoldable pub is_unbootstrapped : Text → Account → Bool
is_unbootstrapped account a = a.id == account && not (is_some a.master_public_key)

-- The `UPDATE` of `bootstrap_master`.
unfoldable pub bootstrapped : Db → Text → Bytes → Db
bootstrapped db account_id master = record db {
  accounts =
      update (is_unbootstrapped account_id)
        (λ a. record a { master_public_key = some master; roster_revision = 1 }) db.accounts;
}

unfoldable pub bootstrap_master : Db → Text → Bytes → Result Db
unfolding bootstrapped
bootstrap_master db account_id master = do
  bail_if (count (is_unbootstrapped account_id) db.accounts != 1)
      (message "account is already bootstrapped")
  ok (bootstrapped db account_id master)

unfoldable pub set_password : Db → Text → Text → Bool → Db
set_password db account_id phc require_change = record db {
  accounts =
      update (λ a. a.id == account_id)
        (λ a. record a { password_phc = phc; require_password_change = require_change })
        db.accounts;
}

unfoldable pub record_device_authentication : Db → Text → ℕ → Db
record_device_authentication db id now = record db {
  devices =
      update (λ d. device_id d == id) (λ d. record d { last_authenticated_at_ms = some now })
        db.devices;
}

-- `account.state != "active" || account.master_public_key.is_none()`
is_listed : Account → Bool
is_listed a = a.state == text "active" && is_some a.master_public_key

unfoldable pub lookup_user_bundle : Db → Text → Option (Account × List DeviceBundle)
unfolding is_listed
lookup_user_bundle db username = elim (account_by_username db username) [
  | none ↦ none
  | some a ↦ if is_listed a then some (a, device_bundles db a.id false) else none
]

abbrev pub is_pending_device : Text → Text → DeviceRow → Bool
is_pending_device account id d = is_device account id d && d.pending

-- The two `UPDATE`s of `activate_device`.
unfoldable pub activated : Db → Text → Text → ℕ → Bytes → Db
activated db account_id id revision certificate_signature = record db {
  devices =
      update (is_pending_device account_id id)
        (λ d. record d {
          pending = false;
          bundle = record (d.bundle) { certificate_signature = certificate_signature };
        })
        db.devices;
  accounts =
      update (λ a. a.id == account_id) (λ a. record a { roster_revision = revision }) db.accounts;
}

-- The current revision is read with `fetch_one`, which fails without a row.
unfoldable pub activate_device : Db → Text → Text → ℕ → Bytes → Result Db
unfolding activated
activate_device db account_id id revision certificate_signature = do
  account ← ok_or (find (λ a. a.id == account_id) db.accounts) constraint
  bail_if (revision != account.roster_revision + 1) (message "roster revision conflict")
  bail_if (count (is_pending_device account_id id) db.devices != 1)
      (message "pending device not found")
  ok (activated db account_id id revision certificate_signature)

unfoldable pub pending_devices : Db → Text → List (DeviceBundle × Bytes)
pending_devices db account_id =
    map (λ d. (d.bundle, d.sas_public_key))
      (select (λ d. d.account_id == account_id && (d.pending && not d.bundle.revoked)) db.devices)

unfoldable pub own_device_info : DeviceRow → OwnDeviceInfo
own_device_info d = record {
  device_id = d.bundle.device_id;
  device_name = d.bundle.device_name;
  pending = d.pending;
  revoked = d.bundle.revoked;
  current = false;
  online = false;
  created_at_ms = d.created_at_ms;
  last_authenticated_at_ms = unwrap_or d.last_authenticated_at_ms 0;
}

-- `ORDER BY revoked, pending, created_at_ms`: must `a` stand before `b`?
unfoldable pub listed_before : OwnDeviceInfo → OwnDeviceInfo → Bool
listed_before a b =
    if a.revoked != b.revoked
    then b.revoked
    else if a.pending != b.pending
    then b.pending
    else ltb a.created_at_ms b.created_at_ms

unfoldable pub own_devices : Db → Text → List OwnDeviceInfo
own_devices db account_id =
    sort_by listed_before
      (map own_device_info (select (λ d. d.account_id == account_id) db.devices))
