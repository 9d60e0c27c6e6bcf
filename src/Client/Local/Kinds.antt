-- ===== src/Client/Local/Kinds.antt =====
-- The enumerations of crates/client/src/local.rs and the texts that its tables hold for them.
use tui_chat.Base.{
  ℕ, Bool, true, [], ◌∷◌, ◌≡◌, refl, Result, ok, err, message, ◌==◌, list_eq, nat_eq, if◌then◌else◌,
}
use tui_chat.Base.Text.{Text, text}

pub data MessageStatus : Type 0 where
  sending sent delivered read : MessageStatus

pub data NotificationKind : Type 0 where
  pairing chat_request chat_response : NotificationKind

pub data NotificationState : Type 0 where
  pending in_progress accepted rejected completed failed : NotificationState

-- `MessageStatus::as_str`, and `label` with the UTF-8 bytes of its two or three characters.
unfoldable pub status_str : MessageStatus → Text
status_str sending = text "sending"
status_str sent = text "sent"
status_str delivered = text "delivered"
status_str read = text "read"

unfoldable pub label : MessageStatus → Text
label sending = 0xe5 ∷ 0x8f ∷ 0x91 ∷ 0xe9 ∷ 0x80 ∷ 0x81 ∷ 0xe4 ∷ 0xb8 ∷ 0xad ∷ []
label sent = 0xe5 ∷ 0xb7 ∷ 0xb2 ∷ 0xe5 ∷ 0x8f ∷ 0x91 ∷ 0xe9 ∷ 0x80 ∷ 0x81 ∷ []
label delivered = 0xe5 ∷ 0xb7 ∷ 0xb2 ∷ 0xe9 ∷ 0x80 ∷ 0x81 ∷ 0xe8 ∷ 0xbe ∷ 0xbe ∷ []
label read = 0xe5 ∷ 0xb7 ∷ 0xb2 ∷ 0xe8 ∷ 0xaf ∷ 0xbb ∷ []

-- `self as u8`
unfoldable pub rank : MessageStatus → ℕ
rank sending = 0
rank sent = 1
rank delivered = 2
rank read = 3

-- One arm of `match value`.
abbrev pub arm {ℓ} : {A : Type ℓ} → Bool → A → Result A → Result A
arm matches value rest = if matches then ok value else rest

either : Text → Text → Text → Bool
either value a b = if value == a then true else value == b

unfoldable pub try_from : Text → Result MessageStatus
unfolding either
try_from value = arm (either value (text "sending") (label sending)) sending (
    arm (either value (text "sent") (label sent)) sent (
      arm (either value (text "delivered") (label delivered)) delivered (
        arm (either value (text "read") (label read)) read
          (err (message "unknown message status")))))

-- The `CASE status WHEN … END` of the updates.
unfoldable pub status_rank : Text → ℕ
status_rank status =
    if status == text "sending"
    then 0
    else if status == text "sent"
    then 1
    else if status == text "delivered"
    then 2
    else if status == text "read"
    then 3
    else 0

unfoldable pub kind_str : NotificationKind → Text
kind_str pairing = text "pairing"
kind_str chat_request = text "chat_request"
kind_str chat_response = text "chat_response"

unfoldable pub kind_from : Text → Result NotificationKind
kind_from value = arm (value == text "pairing") pairing (
    arm (value == text "chat_request") chat_request (
      arm (value == text "chat_response") chat_response
        (err (message "unknown notification kind"))))

unfoldable pub state_str : NotificationState → Text
state_str pending = text "pending"
state_str in_progress = text "in_progress"
state_str accepted = text "accepted"
state_str rejected = text "rejected"
state_str completed = text "completed"
state_str failed = text "failed"

unfoldable pub state_from : Text → Result NotificationState
state_from value = arm (value == text "pending") pending (
    arm (value == text "in_progress") in_progress (
      arm (value == text "accepted") accepted (
        arm (value == text "rejected") rejected (
          arm (value == text "completed") completed
            (arm (value == text "failed") failed (err (message "unknown notification state")))))))

-- The texts in the tables are read back, the labels of older versions too, and the rank that SQL
-- computes from a text is the rank of the status.
pub try_from-status_str :
    (s : MessageStatus)
    → (try_from (status_str s) ≡ ok s)
      × (try_from (label s) ≡ ok s)
      × (status_rank (status_str s) ≡ rank s)
unfolding try_from status_str label status_rank rank text list_eq nat_eq
try_from-status_str sending = (refl, refl, refl)
try_from-status_str sent = (refl, refl, refl)
try_from-status_str delivered = (refl, refl, refl)
try_from-status_str read = (refl, refl, refl)

pub kind_from-kind_str : (k : NotificationKind) → kind_from (kind_str k) ≡ ok k
unfolding kind_from kind_str text list_eq nat_eq
kind_from-kind_str pairing = refl
kind_from-kind_str chat_request = refl
kind_from-kind_str chat_response = refl

pub state_from-state_str : (s : NotificationState) → state_from (state_str s) ≡ ok s
unfolding state_from state_str text list_eq nat_eq
state_from-state_str pending = refl
state_from-state_str in_progress = refl
state_from-state_str accepted = refl
state_from-state_str rejected = refl
state_from-state_str completed = refl
state_from-state_str failed = refl
