-- ===== src/Server/Db/RosterTests.antt =====
-- Runs of the operations on devices, prekeys and pairing events, and the theorems on them at
-- concrete data.
use mathlib.Core.List.{Memᴰ}
use tui_chat.Base.{
  ◌≡◌, refl, true, false, [], ◌∷◌, some, ok, err, message, list_eq, nat_eq, find, suc, ◌==◌,
  map_option, ◌&&◌, select, any, count, delete,
}
use tui_chat.Base.Int.{int_eq}
use tui_chat.Server.Db.Rows.{PrekeyRow, Db}
use tui_chat.Server.Db.Devices.{
  is_active, is_pending_device, is_device, activate_device, activated, bootstrap_master,
  bootstrapped, is_unbootstrapped,
}
use tui_chat.Server.Db.Prekeys.{is_prekey, insert_prekey, publish_prekeys, oldest, claim_prekey}
use tui_chat.Server.Db.Prekeys.Claim.{IsOldest, claim_prekey_once}
use tui_chat.Server.Db.Devices.Roster.{
  revision_of, activate_device_advances, activate_device_replay,
}
use tui_chat.Server.Db.Samples.{bob, laptop, tablet, bundle, db0, prekey, prekey_row, published}

found_key : claim_prekey published bob laptop ≡ (db0, some (bundle laptop, prekey))
unfolding claim_prekey oldest find select any delete list_eq nat_eq
found_key = refl

claim_prekey_once_example :
    (any (λ x. is_device bob laptop x && is_active x) published.devices ≡ true)
    × (any (is_prekey laptop prekey.key_id) db0.prekeys ≡ false)
    × (row : PrekeyRow) × Memᴰ row published.prekeys
    × (row.key ≡ prekey)
    × (row.device_id ≡ laptop)
    × IsOldest row (select (λ x. x.device_id == laptop) published.prekeys)
claim_prekey_once_example =
    claim_prekey_once published bob laptop db0 (bundle laptop) prekey found_key

republished : publish_prekeys published laptop (prekey ∷ []) 9 ≡ ok published
unfolding publish_prekeys insert_prekey any list_eq nat_eq
republished = refl

found_prekey : find (is_prekey laptop prekey.key_id) published.prekeys ≡ some prekey_row
unfolding find list_eq nat_eq
found_prekey = refl

tablet_accepted : activate_device db0 bob tablet 1 [] ≡ ok (activated db0 bob tablet 1 [])
unfolding activate_device find count any list_eq nat_eq
tablet_accepted = refl

activate_device_advances_example :
    (map_option suc (revision_of db0 bob) ≡ some 1)
    × (revision_of (activated db0 bob tablet 1 []) bob ≡ some 1)
    × (any (is_pending_device bob tablet) (activated db0 bob tablet 1 []).devices ≡ false)
activate_device_advances_example =
    activate_device_advances db0 bob tablet 1 [] (activated db0 bob tablet 1 []) tablet_accepted

activate_device_replay_example :
    activate_device (activated db0 bob tablet 1 []) bob laptop 1 []
    ≡ err (message "roster revision conflict")
activate_device_replay_example =
    activate_device_replay db0 bob tablet laptop 1 [] [] (activated db0 bob tablet 1 [])
      tablet_accepted

master_accepted : bootstrap_master db0 bob (8 ∷ []) ≡ ok (bootstrapped db0 bob (8 ∷ []))
unfolding bootstrap_master is_unbootstrapped count list_eq nat_eq
master_accepted = refl

abbrev paired : Db
paired = record db0 {
  pairing_events =
      record {
        id = 1;
        pairing_id = tablet;
        sender_device_id = tablet;
        target_device_id = laptop;
        event_type = [];
        payload = [];
        expires_at_ms = 9;
      }
      ∷ [];
  pairing_seq = 1;
}
