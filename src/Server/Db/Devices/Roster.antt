-- ===== src/Server/Db/Devices/Roster.antt =====
-- The roster of an account: bootstrap, activation and the revision.
use tui_chat.Base.{
  ℕ, suc, ◌+◌, ◌≡◌, refl, Bool, false, Option, some, ok, err, message, constraint, ok_or, ◌==◌,
  list_eq, nat_eq, find, any, count, map_option, arith, >>=-eq-ok,
}
use tui_chat.Base.Text.{Bytes, Text}
use tui_chat.Base.Int.{int_eq}
use tui_chat.Base.Queries.{find-update_self, any-update_gone, count-none}
use tui_chat.Server.Db.Rows.{Account, Db}
use tui_chat.Server.Db.Devices.{
  activate_device, activated, bootstrap_master, bootstrapped, is_unbootstrapped, is_pending_device,
}

abbrev is_account : Text → Account → Bool
is_account account a = a.id == account

abbrev pub revision_of : Db → Text → Option ℕ
revision_of db account =
    map_option (λ a. a.roster_revision) (find (λ a. a.id == account) db.accounts)

activate_device_parts :
    (db : Db) (account id : Text) (revision : ℕ) (signature : Bytes) (db' : Db)
    → activate_device db account id revision signature ≡ ok db'
    → (old : Account) × (find (is_account account) db.accounts ≡ some old)
      × (revision ≡ old.roster_revision + 1)
      × (db' ≡ activated db account id revision signature)
unfolding activate_device
activate_device_parts db account id revision signature db' h =
    let (old, found, h1) =
      >>=-eq-ok (ok_or (find (is_account account) db.accounts) constraint) _ h in
    (old, ground arith, ground arith, ground arith)

activated-find :
    (db : Db) (account id : Text) (revision : ℕ) (signature : Bytes) (old : Account)
    → find (is_account account) db.accounts ≡ some old
    → find (is_account account) (activated db account id revision signature).accounts
      ≡ some (record old { roster_revision = revision })
unfolding activated
activated-find db account id revision signature old found =
    find-update_self (is_account account) _ db.accounts old (λ a. refl) found

-- An activation is accepted only with the revision after the current one. Then the account is at
-- that revision, and its device of that id is no longer pending.
pub activate_device_advances :
    (db : Db) (account id : Text) (revision : ℕ) (signature : Bytes) (db' : Db)
    → activate_device db account id revision signature ≡ ok db'
    → (map_option suc (revision_of db account) ≡ some revision)
      × (revision_of db' account ≡ some revision)
      × (any (is_pending_device account id) db'.devices ≡ false)
unfolding activated
activate_device_advances db account id revision signature db' h =
    let (old, found, next, after) = activate_device_parts db account id revision signature db' h in
    (
      rw found (ground arith),
      rw (after, activated-find db account id revision signature old found) refl,
      rw after (any-update_gone (is_pending_device account id) _ db.devices (λ d. ground arith)),
    )

-- After an activation was accepted, one of the same account with the same revision is refused, for
-- whichever device.
pub activate_device_replay :
    (db : Db) (account id id' : Text) (revision : ℕ) (signature signature' : Bytes) (db' : Db)
    → activate_device db account id revision signature ≡ ok db'
    → activate_device db' account id' revision signature' ≡ err (message "roster revision conflict")
unfolding activate_device
activate_device_replay db account id id' revision signature signature' db' h =
    let (old, found, next, after) = activate_device_parts db account id revision signature db' h in
    rw after (ground (arith, activated-find db account id revision signature old found))

-- The master key of an account is set once: a second bootstrap is refused, whatever its key.
pub bootstrap_master_once :
    (db : Db) (account : Text) (master master' : Bytes) (db' : Db)
    → bootstrap_master db account master ≡ ok db'
    → bootstrap_master db' account master' ≡ err (message "account is already bootstrapped")
unfolding bootstrap_master bootstrapped is_unbootstrapped
bootstrap_master_once db account master master' db' h =
    let gone : count (is_unbootstrapped account) (bootstrapped db account master).accounts ≡ 0 =
      count-none _ _
        (any-update_gone (is_unbootstrapped account) _ db.accounts (λ a. ground arith)) in
    ground (arith, gone)
