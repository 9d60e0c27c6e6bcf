-- ===== src/Client/Local/Contacts/Trust.antt =====
-- When crates/client/src/local.rs calls a contact verified.
use tui_chat.Base.{
  ◌≡◌, refl, sym, ◌∙◌, inl, inr, true, false, ◌&&◌, List, [], ◌∷◌, ◌++◌, Option, none, some, ok,
  >>=-eq-ok, ◌==◌, ◌!=◌, ==_refl, list_eq, nat_eq, find, any, update, arith, Bool-cases,
  Option-cases, Result-cases,
}
use tui_chat.Base.Text.{Text, to_ascii_lowercase}
use tui_chat.Protocol.Frames.{UserBundle}
use tui_chat.Client.Local.Rows.{Contact, ContactRow, LocalDb}
use tui_chat.Client.Local.Contacts.{
  Codec, same_name, put_contact, contact_from_row, contact_by_username, upserted, upsert_contact,
}

same_name_refl : (a : Text) → same_name a a ≡ true
unfolding same_name
same_name_refl a = ==_refl (to_ascii_lowercase a)

find-update_put :
    (row : ContactRow) (cs : List ContactRow)
    → any (λ c. same_name c.username row.username && c.account_id != row.account_id) cs ≡ false
    → any (λ c. c.account_id == row.account_id) cs ≡ true
    → find
        (λ c. same_name c.username row.username)
        (update (λ c. c.account_id == row.account_id) (λ c. row) cs)
      ≡ some row
unfolding find update any
find-update_put row [] free own = cc
find-update_put row (c ∷ cs) free own =
    ground (arith, free, own, same_name_refl row.username, find-update_put row cs)

find-append_put :
    (row : ContactRow) (cs : List ContactRow)
    → any (λ c. same_name c.username row.username && c.account_id != row.account_id) cs ≡ false
    → any (λ c. c.account_id == row.account_id) cs ≡ false
    → find (λ c. same_name c.username row.username) (cs ++ (row ∷ [])) ≡ some row
unfolding find any
find-append_put row [] free own = ground (arith, same_name_refl row.username)
find-append_put row (c ∷ cs) free own = ground (arith, free, own, find-append_put row cs)

-- A contact that was written is the one that is found under its name.
find-put_contact :
    (row : ContactRow) (cs cs' : List ContactRow)
    → put_contact row cs ≡ ok cs'
    → (find (λ c. same_name c.username row.username) cs' ≡ some row)
      × (any (λ c. same_name c.username row.username && c.account_id != row.account_id) cs ≡ false)
unfolding put_contact
find-put_contact row cs cs' e =
    elim (Bool-cases
      (any (λ c. same_name c.username row.username && c.account_id != row.account_id) cs)) [
        | inl taken ↦ ground (arith, e, taken)
        | inr free ↦ (
          elim (Bool-cases (any (λ c. c.account_id == row.account_id) cs)) [
            | inl own ↦ ground (arith, e, free, own, find-update_put row cs free own)
            | inr new ↦ ground (arith, e, free, new, find-append_put row cs free new)
          ],
          free,
        )
      ]

account_of_find :
    (row c : ContactRow) (cs : List ContactRow)
    → any (λ x. same_name x.username row.username && x.account_id != row.account_id) cs ≡ false
    → find (λ x. same_name x.username row.username) cs ≡ some c
    → c.account_id ≡ row.account_id
unfolding find any
account_of_find row c [] free h = cc
account_of_find row c (x ∷ cs) free h = ground (arith, free, h, account_of_find row c cs)

-- The row of a name, verified, of the account and with the master key of the bundle.
pub record HasVerified (codec : Codec) (bundle : UserBundle) (db : LocalDb) : Type 0 where
  pub row : ContactRow
  pub old : UserBundle
  pub named : find (λ c. same_name c.username bundle.username) db.contacts ≡ some row
  pub account : row.account_id ≡ bundle.account_id
  pub verified : row.verified ≡ true
  pub decoded : codec.decode row.bundle ≡ ok old
  pub same_key : old.account_master_key ≡ bundle.account_master_key

module _ (codec : Codec) (bundle : UserBundle) where
  read_back :
      (db : LocalDb) (row : ContactRow) (contact : Contact)
      → codec.decode (codec.encode bundle) ≡ ok bundle
      → row.bundle ≡ codec.encode bundle
      → find (λ c. same_name c.username bundle.username) db.contacts ≡ some row
      → contact_by_username codec bundle.username db ≡ ok (some contact)
      → (contact.bundle ≡ bundle)
        × (contact.verified ≡ row.verified)
        × (contact.identity_changed ≡ row.identity_changed)
  unfolding contact_by_username contact_from_row
  read_back db row contact law wrote found e = ground (arith, law, wrote, found, e)

  decoded_row :
      (db : LocalDb) (row : ContactRow) (old : Contact)
      → contact_from_row codec db row ≡ ok old
      → (codec.decode row.bundle ≡ ok old.bundle) × (row.verified ≡ old.verified)
  unfolding contact_from_row
  decoded_row db row old e =
      let (b, decoded, e1) = >>=-eq-ok (codec.decode row.bundle) _ e in
      (ground (arith, decoded, e1), ground (arith, e1))

  old_row :
      (db : LocalDb) (old : Contact)
      → contact_by_username codec bundle.username db ≡ ok (some old)
      → (row : ContactRow) × (find (λ c. same_name c.username bundle.username) db.contacts
          ≡ some row)
        × (codec.decode row.bundle ≡ ok old.bundle)
        × (row.verified ≡ old.verified)
  unfolding contact_by_username
  old_row db old e =
      elim (Option-cases (find (λ c. same_name c.username bundle.username) db.contacts)) [
        | inl none_ ↦ absurd (ground (arith, e, none_))
        | inr (row, found) ↦
            let (decoded, same) = decoded_row db row old (ground (arith, e, found)) in
            (row, found, decoded, same)
      ]

  upserted-bundle :
      (old : Option Contact) → (upserted codec bundle old).bundle ≡ codec.encode bundle
  unfolding upserted
  upserted-bundle old = refl

  find-put_upserted :
      (old : Option Contact) (cs cs' : List ContactRow)
      → put_contact (upserted codec bundle old) cs ≡ ok cs'
      → find (λ c. same_name c.username bundle.username) cs' ≡ some (upserted codec bundle old)
  unfolding upserted
  find-put_upserted old cs cs' put = (find-put_contact _ cs cs' put).0

  trusted :
      (db : LocalDb) (cs' : List ContactRow) (old : Option Contact)
      → contact_by_username codec bundle.username db ≡ ok old
      → put_contact (upserted codec bundle old) db.contacts ≡ ok cs'
      → (upserted codec bundle old).verified ≡ true
      → HasVerified codec bundle db
  unfolding upserted
  trusted db cs' none e put v = cc
  trusted db cs' (some old) e put v =
      let (row, found, decoded, same) = old_row db old e in
      let free = (find-put_contact _ db.contacts cs' put).1 in
      record {
        row = row;
        old = old.bundle;
        named = found;
        account = account_of_find (upserted codec bundle (some old)) row db.contacts free found;
        verified = ground (arith, same, v);
        decoded = decoded;
        same_key = ground (arith, v);
      }

  -- A contact that an upsert answers as verified has the bundle that was sent, provided that prost
  -- decodes what it encodes, and a contact of that name and account was verified before, with the
  -- same master key.
  pub upsert_contact_trust :
      (db : LocalDb) (contact : Contact)
      → codec.decode (codec.encode bundle) ≡ ok bundle
      → (upsert_contact codec bundle db).1 ≡ ok contact
      → contact.verified ≡ true
      → (contact.bundle ≡ bundle) × HasVerified codec bundle db
  unfolding upsert_contact
  upsert_contact_trust db contact law e v =
      elim (Result-cases (contact_by_username codec bundle.username db)) [
        | inr (error, failed) ↦ absurd (ground (arith, e, failed))
        | inl (old, was) ↦
            (elim (Result-cases (put_contact (upserted codec bundle old) db.contacts)) [
              | inr (error, failed) ↦ absurd (ground (arith, e, was, failed))
              | inl (cs', put) ↦
                  let read =
                    read_back (record db { contacts = cs' }) (upserted codec bundle old) contact law
                      (upserted-bundle old) (find-put_upserted old db.contacts cs' put)
                      (ground (arith, e, was, put)) in
                  (read.0, trusted db cs' old was put (sym read.1 ∙ v))
            ])
      ]
