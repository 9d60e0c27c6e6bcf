-- ===== src/Server/Db/Unrelated.antt =====
-- The operations of crates/server/src/db.rs that do not touch envelopes, usage or delivery
-- updates.
use tui_chat.Base.{ℕ, ◌≡◌, sym, ap, ◌∙◌, subst, Bool, List, [], ◌∷◌, Result, ok, arith, >>=-eq-ok}
use tui_chat.Base.Order.{Increasing}
use tui_chat.Base.Text.{Bytes, Text}
use tui_chat.Protocol.Messages.{DeviceBundle, OneTimeKey}
use tui_chat.Server.Db.Rows.{Db, AuditRow, usage_of}
use tui_chat.Server.Db.Usage.{sent_bytes}
use tui_chat.Server.Db.Consistent.{IsConsistent, UniqueIds}
use tui_chat.Server.Db.Devices.{
  insert_device, bootstrap_master, bootstrapped, set_password, record_device_authentication,
  activate_device, activated,
}
use tui_chat.Server.Db.Prekeys.{insert_prekey, publish_prekeys, claim_key, claim_prekey}
use tui_chat.Server.Db.Pairing.{insert_pairing_event, ack_pairing_event, audit}

-- The tables that `IsConsistent` speaks of are the same.
abbrev pub SameLedger : Db → Db → Type 0
SameLedger db db' =
    (db'.envelopes ≡ db.envelopes)
    × (db'.envelope_seq ≡ db.envelope_seq)
    × (db'.delivery_updates ≡ db.delivery_updates)
    × (db'.update_seq ≡ db.update_seq)
    × (db'.account_storage_usage ≡ db.account_storage_usage)

pub SameLedger-IsConsistent : (db db' : Db) → SameLedger db db' → IsConsistent db → IsConsistent db'
SameLedger-IsConsistent db db' (envelopes, seq, updates, update_seq, usage) v = record {
  accounted = λ a. ap (usage_of a) usage ∙ v.accounted a ∙ sym (ap (sent_bytes a) envelopes);
  unique = subst UniqueIds (sym envelopes) v.unique;
  ordered =
      subst (λ n. Increasing (λ r. r.cursor) 0 db'.envelopes n) (sym seq)
        (subst (λ rows. Increasing (λ r. r.cursor) 0 rows db.envelope_seq) (sym envelopes)
          v.ordered);
  updates_ordered =
      subst (λ n. Increasing (λ r. r.cursor) 0 db'.delivery_updates n) (sym update_seq)
        (subst (λ rows. Increasing (λ r. r.cursor) 0 rows db.update_seq) (sym updates)
          v.updates_ordered);
}

abbrev pub KeepsTables : (Db → Result Db) → Type 0
KeepsTables f = (db db' : Db) → f db ≡ ok db' → IsConsistent db → IsConsistent db'

pub insert_device-IsConsistent :
    (account : Text) (bundle : DeviceBundle) (sas : Bytes) (pending : Bool) (now : ℕ)
    → KeepsTables (λ db. insert_device db account bundle sas pending now)
unfolding insert_device
insert_device-IsConsistent account bundle sas pending now db db' h v =
    SameLedger-IsConsistent db db' (ground arith) v

pub bootstrap_master-IsConsistent :
    (account : Text) (master : Bytes) → KeepsTables (λ db. bootstrap_master db account master)
unfolding bootstrap_master bootstrapped
bootstrap_master-IsConsistent account master db db' h v =
    SameLedger-IsConsistent db db' (ground arith) v

pub activate_device-IsConsistent :
    (account id : Text) (revision : ℕ) (signature : Bytes)
    → KeepsTables (λ db. activate_device db account id revision signature)
unfolding activate_device activated
activate_device-IsConsistent account id revision signature db db' h v =
    SameLedger-IsConsistent db db' (ground arith) v

insert_prekey-IsConsistent :
    (device : Text) (key : OneTimeKey) (now : ℕ)
    → KeepsTables (λ db. insert_prekey db device key now)
unfolding insert_prekey
insert_prekey-IsConsistent device key now db db' h v =
    SameLedger-IsConsistent db db' (ground arith) v

pub publish_prekeys-IsConsistent :
    (device : Text) (keys : List OneTimeKey) (now : ℕ)
    → KeepsTables (λ db. publish_prekeys db device keys now)
unfolding publish_prekeys
publish_prekeys-IsConsistent device [] now db db' h v = ground arith
publish_prekeys-IsConsistent device (key ∷ keys) now db db' h v =
    let (db1, first, rest) = >>=-eq-ok (insert_prekey db device key now) _ h in
    publish_prekeys-IsConsistent device keys now db1 db' rest
      (insert_prekey-IsConsistent device key now db db1 first v)

pub insert_pairing_event-IsConsistent :
    (pairing sender target event_type : Text) (payload : Bytes) (expires : ℕ) (db db' : Db) (id : ℕ)
    → insert_pairing_event db pairing sender target event_type payload expires ≡ ok (db', id)
    → IsConsistent db
    → IsConsistent db'
unfolding insert_pairing_event
insert_pairing_event-IsConsistent pairing sender target event_type payload expires db db' id h v =
    SameLedger-IsConsistent db db' (ground arith) v

pub set_password-IsConsistent :
    (account phc : Text) (change : Bool) (db : Db)
    → IsConsistent db
    → IsConsistent (set_password db account phc change)
unfolding set_password
set_password-IsConsistent account phc change db v = record {
  accounted = v.accounted;
  unique = v.unique;
  ordered = v.ordered;
  updates_ordered = v.updates_ordered;
}

pub record_device_authentication-IsConsistent :
    (id : Text) (now : ℕ) (db : Db)
    → IsConsistent db
    → IsConsistent (record_device_authentication db id now)
unfolding record_device_authentication
record_device_authentication-IsConsistent id now db v = record {
  accounted = v.accounted;
  unique = v.unique;
  ordered = v.ordered;
  updates_ordered = v.updates_ordered;
}

pub audit-IsConsistent : (row : AuditRow) (db : Db) → IsConsistent db → IsConsistent (audit db row)
unfolding audit
audit-IsConsistent row db v = record {
  accounted = v.accounted;
  unique = v.unique;
  ordered = v.ordered;
  updates_ordered = v.updates_ordered;
}

pub ack_pairing_event-IsConsistent :
    (target : Text) (event : ℕ) (db : Db)
    → IsConsistent db
    → IsConsistent (ack_pairing_event db target event).0
unfolding ack_pairing_event
ack_pairing_event-IsConsistent target event db v = record {
  accounted = v.accounted;
  unique = v.unique;
  ordered = v.ordered;
  updates_ordered = v.updates_ordered;
}

pub claim_prekey-IsConsistent :
    (account id : Text) (db : Db) → IsConsistent db → IsConsistent (claim_prekey db account id).0
unfolding claim_prekey claim_key
claim_prekey-IsConsistent account id db v = SameLedger-IsConsistent db _ (ground arith) v
