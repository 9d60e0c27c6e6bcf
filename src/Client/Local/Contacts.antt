-- ===== src/Client/Local/Contacts.antt =====
-- Contacts in crates/client/src/local.rs. The prost encoding of a `UserBundle` is a parameter.
pub mod Trust
use tui_chat.Base.{
  ℕ, Bool, true, false, not, ◌&&◌, ◌||◌, List, [], ◌∷◌, ◌++◌, map, Option, none, some, Result, ok,
  err, message, constraint, ok_or, ◌>>=◌, ◌==◌, ◌!=◌, list_eq, nat_eq, find, any, update, sort_by,
  if◌then◌else◌,
}
use tui_chat.Base.Text.{Bytes, Text, text, to_ascii_lowercase}
use tui_chat.Base.Int.{ℤ, pos, ltb_ℤ, int_eq}
use tui_chat.Protocol.Frames.{UserBundle}
use tui_chat.Protocol.Payload.{text_le}
use tui_chat.Client.Local.Rows.{Contact, TransferContact, ContactRow, SummaryRow, LocalDb}

pub record Codec : Type 0 where
  pub encode : UserBundle → Bytes
  pub decode : Bytes → Result UserBundle

-- `COLLATE NOCASE`
unfoldable pub same_name : Text → Text → Bool
same_name a b = to_ascii_lowercase a == to_ascii_lowercase b

-- `INSERT … ON CONFLICT(account_id) DO UPDATE`, with user names unique.
unfoldable pub put_contact : ContactRow → List ContactRow → Result (List ContactRow)
put_contact row contacts =
    if any (λ c. same_name c.username row.username && c.account_id != row.account_id) contacts
    then err constraint
    else ok (
        if any (λ c. c.account_id == row.account_id) contacts
        then update (λ c. c.account_id == row.account_id) (λ c. row) contacts
        else contacts ++ (row ∷ []))

-- `LEFT JOIN conversation_summaries s ON s.peer_account_id = c.account_id`
unfoldable pub summary_of : Text → LocalDb → Option SummaryRow
summary_of account db = find (λ s. s.peer_account_id == account) db.conversation_summaries

abbrev pub activity_of : Text → LocalDb → ℤ
activity_of account db = elim (summary_of account db) [ none ↦ pos 0 | some s ↦ s.last_activity_ms ]

abbrev pub unread_count_of : Text → LocalDb → ℕ
unread_count_of account db = elim (summary_of account db) [ none ↦ 0 | some s ↦ s.unread_count ]

unfoldable pub named_first : ContactRow → ContactRow → Bool
named_first a b =
    text_le (to_ascii_lowercase a.username) (to_ascii_lowercase b.username)
    && not (same_name a.username b.username)

-- `ORDER BY last_activity_ms DESC, c.username`
unfoldable pub listed_first : LocalDb → ContactRow → ContactRow → Bool
unfolding named_first
listed_first db a b =
    ltb_ℤ (activity_of b.account_id db) (activity_of a.account_id db)
    || (activity_of a.account_id db == activity_of b.account_id db && named_first a b)

module _ (codec : Codec) where
  unfoldable pub contact_from_row : LocalDb → ContactRow → Result Contact
  contact_from_row db row = do
    bundle ← codec.decode row.bundle
    ok (record {
      bundle = bundle;
      verified = row.verified;
      identity_changed = row.identity_changed;
      unread_count = unread_count_of row.account_id db;
      last_activity_ms = activity_of row.account_id db;
    })

  unfoldable pub contact_by_username : Text → LocalDb → Result (Option Contact)
  contact_by_username username db = elim (find (λ c. same_name c.username username) db.contacts) [
    | none ↦ ok none
    | some row ↦ contact_from_row db row >>= (λ c. ok (some c))
  ]

  -- `old.as_ref().is_some_and(…)`
  abbrev pub has_other_key : UserBundle → Option Contact → Bool
  has_other_key bundle old = elim old [
    | none ↦ false
    | some c ↦ c.bundle.account_master_key != bundle.account_master_key
  ]

  abbrev pub was_verified : Option Contact → Bool
  was_verified old = elim old [ none ↦ false | some c ↦ c.verified ]

  unfoldable pub upserted : UserBundle → Option Contact → ContactRow
  upserted bundle old = record {
    account_id = bundle.account_id;
    username = bundle.username;
    bundle = codec.encode bundle;
    verified = was_verified old && not (has_other_key bundle old);
    identity_changed = has_other_key bundle old;
  }

  -- An error after the write leaves what was written.
  unfoldable pub upsert_contact : UserBundle → LocalDb → LocalDb × Result Contact
  unfolding upserted
  upsert_contact bundle db =
      elim (do
        old ← contact_by_username bundle.username db
        put_contact (upserted bundle old) db.contacts) [
          | err error ↦ (db, err error)
          | ok contacts ↦ (
            record db { contacts = contacts },
            do
              found ← contact_by_username bundle.username (record db { contacts = contacts })
              ok_or found (message "contact disappeared after upsert"),
          )
        ]

  decode_all : LocalDb → List ContactRow → Result (List Contact)
  decode_all db [] = ok []
  decode_all db (row ∷ rows) = do c ← contact_from_row db row; cs ← decode_all db rows; ok (c ∷ cs)

  unfoldable pub contacts : LocalDb → Result (List Contact)
  unfolding decode_all
  contacts db = decode_all db (sort_by (listed_first db) db.contacts)

  import_all : List TransferContact → List ContactRow → Result (List ContactRow)
  import_all [] rows = ok rows
  import_all (c ∷ cs) rows = do
    bundle ← codec.decode c.bundle
    rows' ←
        put_contact
          (record {
            account_id = bundle.account_id;
            username = bundle.username;
            bundle = c.bundle;
            verified = c.verified;
            identity_changed = false;
          })
          rows
    import_all cs rows'

  -- One transaction: an error imports nothing.
  unfoldable pub import_contacts : List TransferContact → LocalDb → Result LocalDb
  unfolding import_all
  import_contacts cs db = do rows ← import_all cs db.contacts; ok (record db { contacts = rows })

unfoldable pub export_contacts : LocalDb → List TransferContact
export_contacts db =
    map (λ c. record { bundle = c.bundle; verified = c.verified }) (sort_by named_first db.contacts)
