-- ===== src/Server/Db/Prekeys/Claim.antt =====
-- What becomes of prekeys that crates/server/src/db.rs publishes and hands out.
use tui_chat.Base.{
  ltb, subst, Bool-cases, ℕ, ◌≤◌, ◌≡◌, refl, sym, inl, inr, Bool, true, false, ◌&&◌, List, [], ◌∷◌,
  none, some, ok, ◌==◌, list_eq, nat_eq, find, select, any, delete, All, ==_sound, arith, >>=-eq-ok,
  Option-cases,
}
use mathlib.Core.List.{Memᴰ}
use mathlib.Core.List.Memᴰ
use tui_chat.Server.Db.Devices.{is_device, is_active}
use tui_chat.Base.Text.{Text}
use tui_chat.Base.Int.{int_eq}
use tui_chat.Base.Queries.{any-delete_self, find-append_found, any_of_find}
use tui_chat.Protocol.Messages.{DeviceBundle, OneTimeKey}
use tui_chat.Server.Db.Rows.{DeviceRow, PrekeyRow, Db}
use tui_chat.Server.Db.Prekeys.{
  is_prekey, insert_prekey, publish_prekeys, oldest, claim_key, claim_prekey,
}

oldest_selected :
    (p : PrekeyRow → Bool) (ks : List PrekeyRow) (k : PrekeyRow)
    → oldest (select p ks) ≡ some k
    → p k ≡ true
unfolding oldest select
oldest_selected p [] k h = cc
oldest_selected p (x ∷ ks) k h = elim (Option-cases (oldest (select p ks))) [
  | inl e ↦ ground arith
  | inr (m, e) ↦ ground (arith, oldest_selected p ks m e, oldest_selected p ks k)
]

oldest-Mem : (ks : List PrekeyRow) (k : PrekeyRow) → oldest ks ≡ some k → Memᴰ k ks
unfolding oldest
oldest-Mem [] k h = cc
oldest-Mem (x ∷ ks) k h = elim (Option-cases (oldest ks)) [
  | inl e ↦ Memᴰ.head (ground (arith, e))
  | inr (m, e) ↦ elim (Bool-cases (ltb m.created_at_ms x.created_at_ms)) [
    | inl older ↦ Memᴰ.tail (oldest-Mem ks k (ground (arith, e, older)))
    | inr first ↦ Memᴰ.head (ground (arith, e, first))
  ]
]

select-Mem :
    (p : PrekeyRow → Bool) (k : PrekeyRow) (ks : List PrekeyRow) → Memᴰ k (select p ks) → Memᴰ k ks
unfolding select
select-Mem p k [] h = h
select-Mem p k (x ∷ ks) h = elim (Bool-cases (p x)) [
  | inl kept ↦ elim (Memᴰ.cases_cons (subst (Memᴰ k) (rw kept refl) h)) [
    | inl same ↦ Memᴰ.head same
    | inr later ↦ Memᴰ.tail (select-Mem p k ks later)
  ]
  | inr left_out ↦ Memᴰ.tail (select-Mem p k ks (subst (Memᴰ k) (rw left_out refl) h))
]

oldest-none : (ks : List PrekeyRow) → oldest ks ≡ none → ks ≡ []
unfolding oldest
oldest-none [] h = refl
oldest-none (x ∷ ks) h = elim (Option-cases (oldest ks)) [
  | inl e ↦ ground arith
  | inr (m, e) ↦ ground arith
]

-- No key of the list was published before `k`.
abbrev pub IsOldest : PrekeyRow → List PrekeyRow → Type 0
IsOldest k = All (λ x. k.created_at_ms ≤ x.created_at_ms)

IsOldest-trans :
    (j k : PrekeyRow) (ks : List PrekeyRow)
    → j.created_at_ms ≤ k.created_at_ms
    → IsOldest k ks
    → IsOldest j ks
IsOldest-trans j k [] le h = tt
IsOldest-trans j k (x ∷ ks) le h = (omega arith, IsOldest-trans j k ks le h.1)

oldest-IsOldest : (ks : List PrekeyRow) (k : PrekeyRow) → oldest ks ≡ some k → IsOldest k ks
unfolding oldest
oldest-IsOldest [] k h = tt
oldest-IsOldest (x ∷ ks) k h = elim (Option-cases (oldest ks)) [
  | inl e ↦ rw (oldest-none ks e) (ground (arith, oldest-none ks e))
  | inr (m, e) ↦ ground (arith, oldest-IsOldest ks m e, IsOldest-trans x m ks)
]

module _ (db : Db) (account id : Text) (d : DeviceRow) (k : PrekeyRow) where
  claim_found :
      find (λ x. is_device account id x && is_active x) db.devices ≡ some d
      → oldest (select (λ x. x.device_id == id) db.prekeys) ≡ some k
      → claim_prekey db account id ≡ (
        record db { prekeys = delete (is_prekey id k.key.key_id) db.prekeys },
        some (d.bundle, k.key),
      )
  unfolding claim_prekey
  claim_found found chosen = rw (found, claim_prekey) (rw (chosen, claim_key))

-- What a successful claim hands out: the bundle of an active device of the account and the oldest
-- of its prekeys.
pub record Claimed (db : Db) (account id : Text) (db' : Db) (bundle : DeviceBundle)
    (key : OneTimeKey) : Type 0 where
  pub device : DeviceRow
  pub prekey : PrekeyRow
  pub is_found : find (λ x. is_device account id x && is_active x) db.devices ≡ some device
  pub is_chosen : oldest (select (λ x. x.device_id == id) db.prekeys) ≡ some prekey
  pub bundle_same : bundle ≡ device.bundle
  pub key_same : key ≡ prekey.key
  pub after : db' ≡ record db { prekeys = delete (is_prekey id prekey.key.key_id) db.prekeys }

claim_prekey-Claimed :
    (db : Db) (account id : Text) (db' : Db) (bundle : DeviceBundle) (key : OneTimeKey)
    → claim_prekey db account id ≡ (db', some (bundle, key))
    → Claimed db account id db' bundle key
unfolding claim_prekey claim_key
claim_prekey-Claimed db account id db' bundle key h =
    elim (Option-cases (find (λ d. is_device account id d && is_active d) db.devices)) [
      | inl missing ↦ ground arith
      | inr (d, found) ↦ elim (Option-cases (oldest (select (λ k. k.device_id == id) db.prekeys))) [
        | inl empty ↦ ground arith
        | inr (k, chosen) ↦
            let e = claim_found db account id d k found chosen in
            record {
              device = d;
              prekey = k;
              is_found = found;
              is_chosen = chosen;
              bundle_same = ground arith;
              key_same = ground arith;
              after = ground arith;
            }
      ]
    ]

-- A prekey that is handed out is one of those that are stored of an active device of the account,
-- none of which is older, and it is gone afterwards, so that it cannot be handed out again.
pub claim_prekey_once :
    (db : Db) (account id : Text) (db' : Db) (bundle : DeviceBundle) (key : OneTimeKey)
    → claim_prekey db account id ≡ (db', some (bundle, key))
    → (any (λ x. is_device account id x && is_active x) db.devices ≡ true)
      × (any (is_prekey id key.key_id) db'.prekeys ≡ false)
      × (row : PrekeyRow) × Memᴰ row db.prekeys
      × (row.key ≡ key)
      × (row.device_id ≡ id)
      × IsOldest row (select (λ x. x.device_id == id) db.prekeys)
claim_prekey_once db account id db' bundle key h =
    let c = claim_prekey-Claimed db account id db' bundle key h in
    (
      any_of_find _ db.devices c.device c.is_found,
      rw (c.after, c.key_same) (any-delete_self (is_prekey id c.prekey.key.key_id) db.prekeys),
      c.prekey,
      select-Mem _ c.prekey db.prekeys (oldest-Mem _ c.prekey c.is_chosen),
      sym c.key_same,
      ==_sound _ _ (oldest_selected (λ x. x.device_id == id) db.prekeys c.prekey c.is_chosen),
      oldest-IsOldest _ c.prekey c.is_chosen,
    )

insert_prekey_keeps :
    (db : Db) (device : Text) (k : OneTimeKey) (now : ℕ) (db' : Db) (id key : Text)
    (row : PrekeyRow)
    → insert_prekey db device k now ≡ ok db'
    → find (is_prekey id key) db.prekeys ≡ some row
    → find (is_prekey id key) db'.prekeys ≡ some row
unfolding insert_prekey
insert_prekey_keeps db device k now db' id key row h f = ground (
  arith,
  find-append_found (is_prekey id key) db.prekeys
      (record { device_id = device; key = k; created_at_ms = now } ∷ []) row,
)

-- Publishing keeps every key that is stored as it is: a key id is never given a new key.
pub publish_prekeys_keeps :
    (db : Db) (device : Text) (keys : List OneTimeKey) (now : ℕ) (db' : Db) (id key : Text)
    (row : PrekeyRow)
    → publish_prekeys db device keys now ≡ ok db'
    → find (is_prekey id key) db.prekeys ≡ some row
    → find (is_prekey id key) db'.prekeys ≡ some row
unfolding publish_prekeys
publish_prekeys_keeps db device [] now db' id key row h f = ground arith
publish_prekeys_keeps db device (k ∷ keys) now db' id key row h f =
    let (db1, inserted, rest) = >>=-eq-ok (insert_prekey db device k now) _ h in
    publish_prekeys_keeps db1 device keys now db' id key row rest
      (insert_prekey_keeps db device k now db1 id key row inserted f)
