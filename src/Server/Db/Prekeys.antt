-- ===== src/Server/Db/Prekeys.antt =====
-- One-time prekeys in crates/server/src/db.rs.
pub mod Claim
use tui_chat.Base.{
  ℕ, ltb, Bool, ◌&&◌, List, [], ◌∷◌, ◌++◌, Option, none, some, Result, ok, err, constraint, ◌>>=◌,
  if◌then◌else◌, ◌==◌, list_eq, nat_eq, find, select, any, delete,
}
use tui_chat.Base.Text.{Text}
use tui_chat.Base.Int.{int_eq}
use tui_chat.Protocol.Messages.{DeviceBundle, OneTimeKey}
use tui_chat.Server.Db.Rows.{PrekeyRow, Db}
use tui_chat.Server.Db.Devices.{is_device, is_active, has_device}

abbrev pub is_prekey : Text → Text → PrekeyRow → Bool
is_prekey device key k = k.device_id == device && k.key.key_id == key

-- `INSERT OR IGNORE INTO prekeys`: a key that is there stays.
unfoldable pub insert_prekey : Db → Text → OneTimeKey → ℕ → Result Db
insert_prekey db device key now =
    if any (is_prekey device key.key_id) db.prekeys
    then ok db
    else if has_device db device
    then ok (record db {
      prekeys = db.prekeys ++ (record { device_id = device; key = key; created_at_ms = now } ∷ []);
    })
    else err constraint

unfoldable pub publish_prekeys : Db → Text → List OneTimeKey → ℕ → Result Db
publish_prekeys db device [] now = ok db
publish_prekeys db device (key ∷ keys) now = do
  db' ← insert_prekey db device key now
  publish_prekeys db' device keys now

-- `ORDER BY created_at_ms LIMIT 1`; of two keys of one time the first inserted.
unfoldable pub oldest : List PrekeyRow → Option PrekeyRow
oldest [] = none
oldest (k ∷ ks) = elim (oldest ks) [
  | none ↦ some k
  | some m ↦ if ltb m.created_at_ms k.created_at_ms then some m else some k
]

unfoldable pub claim_key : Db → Text → DeviceBundle → Db × Option (DeviceBundle × OneTimeKey)
claim_key db device bundle = elim (oldest (select (λ k. k.device_id == device) db.prekeys)) [
  | none ↦ (db, none)
  | some k ↦ (
    record db { prekeys = delete (is_prekey device k.key.key_id) db.prekeys },
    some (bundle, k.key),
  )
]

unfoldable pub claim_prekey : Db → Text → Text → Db × Option (DeviceBundle × OneTimeKey)
unfolding claim_key
claim_prekey db account id = elim (find (λ d. is_device account id d && is_active d) db.devices) [
  | none ↦ (db, none)
  | some d ↦ claim_key db id d.bundle
]
