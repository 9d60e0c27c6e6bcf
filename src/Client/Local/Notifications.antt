-- ===== src/Client/Local/Notifications.antt =====
-- Notifications in crates/client/src/local.rs. `now` is the clock.
use tui_chat.Base.{
  Bool, true, false, ◌&&◌, ◌||◌, List, [], ◌∷◌, ◌++◌, Option, none, some, Result, ok, err,
  constraint, ◌>>=◌, ◌==◌, ◌!=◌, list_eq, nat_eq, find, any, update, delete, take, sort_by,
  if◌then◌else◌,
}
use tui_chat.Base.Text.{Bytes, Text, text}
use tui_chat.Base.Int.{ℤ, ltb_ℤ, int_eq}
use tui_chat.Protocol.Payload.{text_le}
use tui_chat.Client.Local.Kinds.{NotificationState, kind_str, kind_from, state_str, state_from}
use tui_chat.Client.Local.Rows.{Notification, NotificationRow, LocalDb}
use tui_chat.Client.Local.Keys.{Formats, VaultSession, encode_notification, unseal_bytes}

unfoldable pub notification_row : Notification → Bytes → NotificationRow
notification_row n payload = record {
  id = n.id;
  kind = kind_str n.kind;
  request_id = n.request_id;
  actor_account_id = n.actor_account_id;
  actor_username = n.actor_username;
  actor_device_id = n.actor_device_id;
  encrypted_payload = payload;
  state = state_str n.state;
  is_read = n.read;
  created_at_ms = n.created_at_ms;
  updated_at_ms = n.updated_at_ms;
}

-- `INSERT … ON CONFLICT(request_id) DO UPDATE`, with the id as the primary key. `renew` says
-- whether the creation time is replaced too.
unfoldable pub upsert_notification : Bool → NotificationRow → LocalDb → Result LocalDb
upsert_notification renew row db =
    if any (λ n. n.id == row.id && n.request_id != row.request_id) db.notifications
    then err constraint
    else ok (record db {
      notifications =
          if any (λ n. n.request_id == row.request_id) db.notifications
          then update (λ n. n.request_id == row.request_id)
              (λ n. record row {
                created_at_ms = if renew then row.created_at_ms else n.created_at_ms;
              })
              db.notifications
          else db.notifications ++ (row ∷ []);
    })

unfoldable pub update_notification_state : Text → NotificationState → Bool → ℤ → LocalDb → LocalDb
update_notification_state id state read now db = record db {
  notifications =
      update (λ n. n.id == id)
        (λ n. record n { state = state_str state; is_read = read; updated_at_ms = now })
        db.notifications;
}

unfoldable pub mark_notification_read : Text → ℤ → LocalDb → LocalDb
mark_notification_read id now db = record db {
  notifications =
      update (λ n. n.id == id) (λ n. record n { is_read = true; updated_at_ms = now })
        db.notifications;
}

unfoldable pub delete_notification : Text → LocalDb → LocalDb
delete_notification id db = record db { notifications = delete (λ n. n.id == id) db.notifications }

-- `ORDER BY created_at_ms DESC, id DESC`
unfoldable pub shown_first : NotificationRow → NotificationRow → Bool
shown_first a b =
    ltb_ℤ b.created_at_ms a.created_at_ms
    || (a.created_at_ms == b.created_at_ms && (text_le b.id a.id && a.id != b.id))

module _ (formats : Formats) (vault : VaultSession) where
  unfoldable pub save_notification : Bytes → Notification → LocalDb → Result LocalDb
  save_notification nonce n db = do
    payload ← encode_notification formats vault nonce n
    upsert_notification false (notification_row n payload) db

  unfoldable pub decode_notification : NotificationRow → Result Notification
  decode_notification row = do
    plain ← unseal_bytes formats vault (text "notification/v1/" ++ row.id) row.encrypted_payload
    payload ← formats.json_data plain
    kind ← kind_from row.kind
    state ← state_from row.state
    ok (record {
      id = row.id;
      kind = kind;
      request_id = row.request_id;
      actor_account_id = row.actor_account_id;
      actor_username = row.actor_username;
      actor_device_id = row.actor_device_id;
      state = state;
      read = row.is_read;
      created_at_ms = row.created_at_ms;
      updated_at_ms = row.updated_at_ms;
      payload = payload;
    })

  decode_all : List NotificationRow → Result (List Notification)
  decode_all [] = ok []
  decode_all (row ∷ rows) = do n ← decode_notification row; ns ← decode_all rows; ok (n ∷ ns)

  unfoldable pub notifications : LocalDb → Result (List Notification)
  unfolding decode_all
  notifications db = decode_all (take 200 (sort_by shown_first db.notifications))

  unfoldable pub notification_by_request_id : Text → LocalDb → Result (Option Notification)
  notification_by_request_id request_id db =
      elim (find (λ n. n.request_id == request_id) db.notifications) [
        | none ↦ ok none
        | some row ↦ decode_notification row >>= (λ n. ok (some n))
      ]
