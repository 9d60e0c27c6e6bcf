-- ===== src/Client/LocalTests.antt =====
-- Runs of crates/client/src/local.rs on concrete data.
use tui_chat.Base.{
  Result, length, take, drop, subst, ok-injective, err, message, ◌≡◌, refl, sym, ◌⊎◌, true, [], ◌∷◌,
  some, ok, find, any, update, select, delete, list_eq, nat_eq, ◌==◌, count,
}
use Prim.Native.String.{String}
use tui_chat.Client.Samples.{
  profile_bytes, nonce, open_formats, a_vault, a_profile, some_nonces, sealed, conversation_with,
  a_message, a_message_row, empty_db, received_db, a_codec, a_bundle, trusted_db, trusted_contact,
  a_deletion, erased_db, their_deletion, merged_db,
}
use tui_chat.Base.Text.{Bytes, Text, text, to_ascii_lowercase}
use tui_chat.Client.Local.Profile.{
  Decoded, decoded, ends_early, Readers, stored_of, Reads, load_profile, load_profile-save_profile,
}
use tui_chat.Client.Local.Commit.{
  save_profile, set_profile, commit_inbound, commit_conversation_deletion,
}
use tui_chat.Crypto.Frame.{take-append, drop-append, frame_bytes}
use tui_chat.Base.Int.{pos, ltb_ℤ, as_i64}
use tui_chat.Base.Utf8.{follow, utf8_rest, is_utf8}
use tui_chat.Crypto.Blob.{to_bytes}
use tui_chat.Crypto.Vault.{Unseals, encrypt}
use tui_chat.Client.Local.Kinds.{read, status_str}
use tui_chat.Client.Local.Rows.{TombstoneRow}
use tui_chat.Client.Local.Keys.{seal, seal_bytes, encode_message, encode_profile}
use tui_chat.Client.Local.Messages.{
  max_ℤ, is_unread, insert_summary, insert_message, message_row, update_status, decode_row,
}
use tui_chat.Client.Local.Messages.Unread.{unread_of, unread_in}
use tui_chat.Client.Local.Messages.Counted.{IsCounted}
use tui_chat.Client.Local.Sync.{set_envelope_cursor}
use tui_chat.Client.Local.Contacts.{
  same_name, put_contact, summary_of, contact_from_row, contact_by_username, upserted,
  upsert_contact,
}
use tui_chat.Client.Local.Contacts.Trust.{HasVerified, upsert_contact_trust}
use tui_chat.Client.Local.Deletion.{
  delete_conversation_state, merge_tombstone, upsert_conversation_tombstone,
  delete_conversation_everywhere,
}
use tui_chat.Client.Local.Deletion.Erased.{IsErased, delete_conversation_everywhere-IsErased}
use tui_chat.Client.Local.Deletion.Tombstones.{tombstone_of, commit_conversation_deletion_pending}
use tui_chat.Client.Local.Operations.{SameTables}
use tui_chat.Client.Local.Reach.{Step, Reach}
use tui_chat.Client.Local.Reach.Badges.{Reach-IsCounted}
use tui_chat.Client.Local.Reach.Kept.{Keeps, Step-Keeps}
use tui_chat.Client.Local.Sealed.{decode_row-message_row}

open_formats-Unseals : Unseals open_formats.cipher
open_formats-Unseals key n aad plain s e = sym e

a_message-received :
    commit_inbound open_formats a_vault some_nonces a_profile a_message 1 empty_db ≡ ok received_db
unfolding commit_inbound encode_profile encode_message seal_bytes seal encrypt to_bytes frame_bytes
    text set_profile message_row insert_message insert_summary is_unread status_str
    set_envelope_cursor as_i64 any list_eq nat_eq
a_message-received = refl

empty_db-IsCounted : IsCounted conversation_with empty_db
unfolding unread_of unread_in count
empty_db-IsCounted = record { exact = λ c. refl; paired = tt }

-- It is received, and then read.
Reach-IsCounted_example : IsCounted conversation_with (update_status (49 ∷ []) read received_db)
Reach-IsCounted_example =
    Reach-IsCounted conversation_with open_formats a_vault (a_codec a_bundle)
      (Reach.next
        (Reach.next Reach.here
          (Step.receives some_nonces a_profile a_message 1 refl a_message-received))
        (Step.marks (49 ∷ []) read received_db))
      empty_db-IsCounted

a_message-found :
    find (λ m. m.logical_message_id == (49 ∷ [])) received_db.messages ≡ some a_message_row
unfolding find list_eq nat_eq
a_message-found = refl

Step-Keeps_example :
    Keeps (49 ∷ []) a_message_row (update_status (49 ∷ []) read received_db)
    ⊎ ((peer : Text) × SameTables
          (delete_conversation_state peer (99 ∷ 98 ∷ []) received_db)
          (update_status (49 ∷ []) read received_db))
Step-Keeps_example =
    Step-Keeps conversation_with open_formats a_vault (a_codec a_bundle) (49 ∷ []) a_message_row
      (Step.marks (49 ∷ []) read received_db) a_message-found

trusted_contact-upserted :
    (upsert_contact (a_codec a_bundle) a_bundle trusted_db).1 ≡ ok trusted_contact
unfolding upsert_contact upserted contact_by_username contact_from_row put_contact same_name
    summary_of find any update to_ascii_lowercase list_eq nat_eq
trusted_contact-upserted = refl

upsert_contact_trust_example :
    (a_bundle ≡ a_bundle) × HasVerified (a_codec a_bundle) a_bundle trusted_db
upsert_contact_trust_example =
    upsert_contact_trust (a_codec a_bundle) a_bundle trusted_db trusted_contact refl
      trusted_contact-upserted refl

received_db-erased : delete_conversation_everywhere a_deletion received_db ≡ ok erased_db
unfolding delete_conversation_everywhere delete_conversation_state upsert_conversation_tombstone any
    delete select list_eq nat_eq
received_db-erased = refl

delete_conversation_everywhere-IsErased_example :
    IsErased received_db (98 ∷ []) (99 ∷ 98 ∷ []) erased_db
delete_conversation_everywhere-IsErased_example =
    delete_conversation_everywhere-IsErased a_deletion received_db erased_db received_db-erased

their_deletion-committed :
    commit_conversation_deletion open_formats a_vault some_nonces a_profile their_deletion 4
      erased_db
    ≡ ok merged_db
unfolding commit_conversation_deletion encode_profile seal_bytes seal encrypt to_bytes frame_bytes
    text set_profile delete_conversation_state upsert_conversation_tombstone merge_tombstone
    set_envelope_cursor as_i64 any update delete select list_eq nat_eq ltb_ℤ
their_deletion-committed = refl

erased_db-pending :
    tombstone_of (98 ∷ []) erased_db ≡ some (record { tombstone = a_deletion; pending_sync = true })
unfolding find list_eq nat_eq
erased_db-pending = refl

commit_conversation_deletion_pending_example :
    (row : TombstoneRow) × (tombstone_of (98 ∷ []) merged_db ≡ some row)
    × (row.pending_sync ≡ true)
    × (row.tombstone.sync_event_id ≡ 101 ∷ [])
    × (row.tombstone.deleted_at_ms ≡ max_ℤ (pos 9) (pos 12))
commit_conversation_deletion_pending_example =
    commit_conversation_deletion_pending open_formats a_vault some_nonces a_profile their_deletion 4
      (record { tombstone = a_deletion; pending_sync = true }) erased_db merged_db erased_db-pending
      refl their_deletion-committed

a_message-utf8 : is_utf8 (104 ∷ 105 ∷ []) ≡ true
unfolding is_utf8 utf8_rest follow
a_message-utf8 = refl

a_message-encoded :
    encode_message open_formats a_vault nonce a_message ≡ ok (sealed (104 ∷ 105 ∷ []))
unfolding encode_message seal_bytes seal encrypt to_bytes frame_bytes text
a_message-encoded = refl

decode_row-message_row_example :
    decode_row open_formats a_vault (message_row a_message (sealed (104 ∷ 105 ∷ []))) ≡ ok a_message
decode_row-message_row_example =
    decode_row-message_row open_formats a_vault open_formats-Unseals nonce (sealed (104 ∷ 105 ∷ []))
      a_message refl a_message-utf8 a_message-encoded

-- The identity and the machine, after the length of the first.
abbrev read_postcard : Bytes → Decoded
read_postcard encoded = elim encoded [
  | [] ↦ ends_early
  | n ∷ rest ↦ decoded (stored_of a_profile (take n rest) (drop n rest))
]

-- The sample's identity and machine are written as no bytes; other bytes are refused.
abbrev no_bytes : String → Bytes → Result (Result Bytes)
no_bytes refused bytes = elim bytes [ [] ↦ ok (ok []) | _ ∷ _ ↦ err (message refused) ]

abbrev some_readers : Readers
some_readers = record {
  postcard = read_postcard;
  postcard_legacy = λ encoded. err (message "unexpected end");
  json = λ encoded. err (message "expected value");
  identity = λ bytes. no_bytes "invalid device identity" bytes;
  machine = λ bytes. no_bytes "invalid Olm machine" bytes;
}

some_readers-Reads : Reads open_formats some_readers a_profile
some_readers-Reads = record {
  profile = λ i m encoded e.
      subst (λ (b : Bytes). read_postcard b ≡ decoded (stored_of a_profile i m)) (ok-injective e)
        (rw (take-append i m (length i) refl, drop-append i m (length i) refl) refl);
  identity = λ b e.
      subst (λ (x : Bytes). no_bytes "invalid device identity" x ≡ ok (ok [])) (ok-injective e)
        refl;
  machine = λ b e.
      subst (λ (x : Bytes). no_bytes "invalid Olm machine" x ≡ ok (ok [])) (ok-injective e) refl;
}

a_profile-saved :
    save_profile open_formats a_vault some_nonces a_profile empty_db
    ≡ ok (record empty_db { profile = some profile_bytes })
unfolding save_profile encode_profile seal_bytes seal encrypt to_bytes frame_bytes text set_profile
a_profile-saved = refl

load_profile-save_profile_example :
    load_profile some_readers open_formats a_vault
      (record empty_db { profile = some profile_bytes })
    ≡ ok (some a_profile)
load_profile-save_profile_example =
    load_profile-save_profile open_formats some_readers a_vault open_formats-Unseals some_nonces
      a_profile empty_db (record empty_db { profile = some profile_bytes }) some_readers-Reads refl
      a_profile-saved
