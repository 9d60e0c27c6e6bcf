-- ===== src/Server/Db/Cleanup/Revocation.antt =====
-- What the revocation of a device cuts off.
use tui_chat.Base.{
  ◌≡◌, refl, sym, subst, true, false, not, ◌&&◌, List, [], ◌∷◌, none, ◌==◌, list_eq, nat_eq, any,
  update, sum_of, arith,
}
use tui_chat.Server.Db.Devices.{is_device, is_active}
use tui_chat.Base.Text.{Text}
use tui_chat.Base.Int.{int_eq}
use tui_chat.Base.Queries.{any-delete_self, count-none, update-none, find-none_of_any}
use tui_chat.Protocol.Messages.{EncryptedEnvelope}
use tui_chat.Server.Db.Rows.{Account, DeviceRow, Db}
use tui_chat.Server.Db.Prekeys.{claim_prekey}
use tui_chat.Server.Db.Store.{active_count}
use tui_chat.Server.Db.Cleanup.{
  delete_orphans, delete_envelopes, cleanup_revoked_device, is_for_device, mark_revoked,
  revoke_own_device,
}

-- After the update no device of the account goes by that id and is not revoked.
any-mark_revoked :
    (account id : Text) (ds : List DeviceRow)
    → any
        (λ d. is_device account id d && is_active d)
        (update
          (λ d. is_device account id d && not d.bundle.revoked)
          (λ d. record d { bundle = record (d.bundle) { revoked = true } })
          ds)
      ≡ false
unfolding any update
any-mark_revoked account id [] = refl
any-mark_revoked account id (d ∷ ds) = ground (arith, any-mark_revoked account id ds)

active_count-none :
    (accounts : List Account) (ds : List DeviceRow) (e : EncryptedEnvelope)
    → any (λ d. is_device e.recipient_account_id e.recipient_device_id d && is_active d) ds ≡ false
    → active_count accounts ds e ≡ 0
unfolding active_count sum_of any
active_count-none accounts [] e h = refl
active_count-none accounts (d ∷ ds) e h = ground (arith, active_count-none accounts ds e)

revoke_own_device_done :
    (db : Db) (account id : Text)
    → (revoke_own_device db account id).1 ≡ true
    → (revoke_own_device db account id).0
      ≡ (cleanup_revoked_device (mark_revoked db account id) id).0
unfolding revoke_own_device
revoke_own_device_done db account id h = ground arith

claim_prekey_inactive :
    (db : Db) (account id : Text)
    → any (λ d. is_device account id d && is_active d) db.devices ≡ false
    → claim_prekey db account id ≡ (db, none)
unfolding claim_prekey
claim_prekey_inactive db account id h = rw (find-none_of_any _ db.devices h, claim_prekey)

-- The device can neither be reached nor be claimed from.
abbrev pub IsCutOff : Text → Text → Db → Type 0
IsCutOff account id db =
    (any (is_for_device id) db.envelopes ≡ false)
    × (any (λ k. k.device_id == id) db.prekeys ≡ false)
    × (claim_prekey db account id ≡ (db, none))
    × ((e : EncryptedEnvelope)
        → e.recipient_account_id ≡ account
        → e.recipient_device_id ≡ id
        → active_count db.accounts db.devices e ≡ 0)

cleanup-IsCutOff :
    (db : Db) (account id : Text)
    → IsCutOff account id (cleanup_revoked_device (mark_revoked db account id) id).0
unfolding cleanup_revoked_device delete_orphans delete_envelopes mark_revoked
cleanup-IsCutOff db account id = (
  any-delete_self _ db.envelopes,
  any-delete_self _ db.prekeys,
  claim_prekey_inactive _ account id (any-mark_revoked account id db.devices),
  λ e a i. active_count-none db.accounts _ e (rw (a, i) (any-mark_revoked account id db.devices)),
)

-- A device that its account revokes has no queued envelope and no prekey left, none of its prekeys
-- can be claimed, and no envelope to it counts as deliverable.
pub revoke_own_device-IsCutOff :
    (db : Db) (account id : Text)
    → (revoke_own_device db account id).1 ≡ true
    → IsCutOff account id (revoke_own_device db account id).0
revoke_own_device-IsCutOff db account id h =
    subst (IsCutOff account id) (sym (revoke_own_device_done db account id h))
      (cleanup-IsCutOff db account id)

-- A device of another account, or one that is revoked already, is refused and nothing changes.
pub revoke_own_device_refuses :
    (db : Db) (account id : Text)
    → any (λ d. is_device account id d && not d.bundle.revoked) db.devices ≡ false
    → revoke_own_device db account id ≡ (db, false)
unfolding revoke_own_device mark_revoked
revoke_own_device_refuses db account id h =
    rw (count-none _ db.devices h, update-none _ _ db.devices h) (ground arith)

-- No device of that id is active afterwards.
pub any-revoke_own_device :
    (db : Db) (account id : Text)
    → (revoke_own_device db account id).1 ≡ true
    → any (λ d. is_device account id d && is_active d) (revoke_own_device db account id).0.devices
      ≡ false
unfolding cleanup_revoked_device delete_orphans delete_envelopes mark_revoked
any-revoke_own_device db account id h =
    subst (λ after. any (λ d. is_device account id d && is_active d) after.devices ≡ false)
      (sym (revoke_own_device_done db account id h)) (any-mark_revoked account id db.devices)
