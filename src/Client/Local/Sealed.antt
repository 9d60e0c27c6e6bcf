-- ===== src/Client/Local/Sealed.antt =====
-- What crates/client/src/local.rs encrypts, it reads back: messages, drafts and notifications.
use tui_chat.Base.{
  ◌≡◌, ap, ◌∙◌, subst, true, [], ◌∷◌, ◌++◌, none, some, ok, ok_or, >>=-eq-ok, ok-injective, ==_refl,
  list_eq, nat_eq, length, find, delete, arith,
}
use tui_chat.Base.Text.{Bytes, Text, text}
use tui_chat.Base.Utf8.{is_utf8, from_utf8}
use tui_chat.Base.Queries.{find-append_missing, any-delete_self, find-none_of_any}
use tui_chat.Crypto.Blob.{EncryptedBlob, to_bytes, from_bytes}
use tui_chat.Crypto.Vault.{Unseals, encrypt, decrypt}
use tui_chat.Crypto.RoundTrip.{from_bytes-to_bytes, decrypt-encrypt}
use tui_chat.Client.Local.Kinds.{try_from-status_str, kind_from-kind_str, state_from-state_str}
use tui_chat.Client.Local.Notifications.{notification_row, decode_notification}
use tui_chat.Client.Local.Rows.{ChatMessage, Notification, LocalDb}
use tui_chat.Client.Local.Keys.{
  Formats, VaultSession, seal, unseal, seal_bytes, unseal_bytes, decode_encrypted_blob,
  encode_message, encode_notification,
}
use tui_chat.Client.Local.Messages.{message_row, decode_row}
use tui_chat.Client.Local.Sync.{is_draft, save_draft, load_draft}

encrypt-shape :
    (formats : Formats) (key nonce aad plain : Bytes) (blob : EncryptedBlob)
    → encrypt formats.cipher key nonce aad plain ≡ ok blob
    → (blob.version ≡ 2) × (length blob.salt ≡ 16) × (blob.nonce ≡ nonce)
unfolding encrypt
encrypt-shape formats key nonce aad plain blob e =
    let (sealed, enc, e1) = >>=-eq-ok (ok_or (formats.cipher.seal key nonce aad plain) _) _ e in
    (ground (arith, e1), ground (arith, e1), ground (arith, e1))

find_own :
    (conversation : Text) (body : Bytes)
    → find
        (is_draft conversation)
        (record { conversation_id = conversation; encrypted_body = body } ∷ [])
      ≡ some (record { conversation_id = conversation; encrypted_body = body })
unfolding find
find_own conversation body = ground (arith, ==_refl conversation)

module _ (formats : Formats) (vault : VaultSession) (law : Unseals formats.cipher) where
  unseal_bytes-to_bytes :
      (aad plain : Bytes) (blob : EncryptedBlob)
      → blob.version ≡ 2
      → from_bytes formats.json_blob (to_bytes blob) ≡ ok blob
      → decrypt formats.cipher vault.key aad blob ≡ ok plain
      → unseal_bytes formats vault aad (to_bytes blob) ≡ ok plain
  unfolding unseal_bytes decode_encrypted_blob unseal
  unseal_bytes-to_bytes aad plain blob two back opened = ground (arith, back, two, opened)

  -- Decryption undoes encryption through the bytes of the table.
  pub unseal_bytes-seal_bytes :
      (nonce aad plain encoded : Bytes)
      → length nonce ≡ 24
      → seal_bytes formats vault nonce aad plain ≡ ok encoded
      → unseal_bytes formats vault aad encoded ≡ ok plain
  unfolding seal_bytes seal
  unseal_bytes-seal_bytes nonce aad plain encoded len e =
      let (blob, enc, e1) = >>=-eq-ok (encrypt formats.cipher vault.key nonce aad plain) _ e in
      let (two, salt, same) = encrypt-shape formats vault.key nonce aad plain blob enc in
      let back =
        from_bytes-to_bytes formats.json_blob blob salt (ap (λ (n : Bytes). length n) same ∙ len) in
      let plain_back = decrypt-encrypt formats.cipher vault.key nonce aad plain blob law enc in
      subst (λ (b : Bytes). unseal_bytes formats vault aad b ≡ ok plain) (ok-injective e1)
        (unseal_bytes-to_bytes aad plain blob two back plain_back)

  -- Where decryption undoes encryption: a message that is stored with a nonce of 24 bytes and a
  -- body that is UTF-8, as every Rust string is, is decoded from its row unchanged.
  pub decode_row-message_row :
      (nonce body : Bytes) (m : ChatMessage)
      → length nonce ≡ 24
      → is_utf8 m.body ≡ true
      → encode_message formats vault nonce m ≡ ok body
      → decode_row formats vault (message_row m body) ≡ ok m
  unfolding encode_message decode_row message_row from_utf8
  decode_row-message_row nonce body m len valid e =
      rw (unseal_bytes-seal_bytes nonce (text "message/v1/" ++ m.id) m.body body len e)
        (ground (arith, valid, try_from-status_str m.status))

  -- And so is a notification, if serde_json reads the text of its data.
  decode_notification-notification_row :
      (nonce payload : Bytes) (n : Notification)
      → length nonce ≡ 24
      → formats.json_data n.payload ≡ ok n.payload
      → encode_notification formats vault nonce n ≡ ok payload
      → decode_notification formats vault (notification_row n payload) ≡ ok n
  unfolding encode_notification decode_notification notification_row
  decode_notification-notification_row nonce payload n len json e =
      rw (unseal_bytes-seal_bytes nonce (text "notification/v1/" ++ n.id) n.payload payload len e)
        (ground (arith, json, kind_from-kind_str n.kind, state_from-state_str n.state))

  load_draft-missing :
      (conversation : Text) (db : LocalDb)
      → find (is_draft conversation) db.drafts ≡ none
      → load_draft formats vault conversation db ≡ ok []
  unfolding load_draft
  load_draft-missing conversation db h = ground (arith, h)

  load_draft-found :
      (conversation draft : Text) (body : Bytes) (db : LocalDb)
      → is_utf8 draft ≡ true
      → find (is_draft conversation) db.drafts
        ≡ some (record { conversation_id = conversation; encrypted_body = body })
      → unseal_bytes formats vault (text "draft/v2/" ++ conversation) body ≡ ok draft
      → load_draft formats vault conversation db ≡ ok draft
  unfolding load_draft from_utf8
  load_draft-found conversation draft body db valid h opened = ground (arith, h, opened, valid)

  -- A draft that was saved is loaded again; saving an empty draft is forgetting it.
  pub load_draft-save_draft :
      (nonce : Bytes) (conversation draft : Text) (db db' : LocalDb)
      → length nonce ≡ 24
      → is_utf8 draft ≡ true
      → save_draft formats vault nonce conversation draft db ≡ ok db'
      → load_draft formats vault conversation db' ≡ ok draft
  unfolding save_draft
  load_draft-save_draft nonce conversation [] db db' len valid e =
      subst (λ (d : LocalDb). load_draft formats vault conversation d ≡ ok []) (ok-injective e)
        (load_draft-missing conversation _
          (find-none_of_any _ _ (any-delete_self (is_draft conversation) db.drafts)))
  load_draft-save_draft nonce conversation (c ∷ cs) db db' len valid e =
      let (body, enc, e1) =
        >>=-eq-ok (seal_bytes formats vault nonce (text "draft/v2/" ++ conversation) (c ∷ cs)) _
          e in
      subst (λ (d : LocalDb). load_draft formats vault conversation d ≡ ok (c ∷ cs))
        (ok-injective e1)
        (load_draft-found conversation (c ∷ cs) body _ valid
          (find-append_missing (is_draft conversation) (delete (is_draft conversation) db.drafts) _
              (any-delete_self (is_draft conversation) db.drafts)
            ∙ find_own conversation body)
          (unseal_bytes-seal_bytes nonce (text "draft/v2/" ++ conversation) (c ∷ cs) body len enc))
