-- ===== src/Server/Errors.antt =====
-- What the server in crates/server/src/ws.rs tells a client of an error: `public_error`.
use tui_chat.Base.{
  Bool, true, false, ◌&&◌, ◌||◌, List, [], ◌∷◌, Error, storage, account_quota, total_quota,
  disk_pressure, message, constraint, if◌then◌else◌, ◌==◌, nat_eq, list_eq,
}
use tui_chat.Base.Text.{Text, text}

pub record PublicError : Type 0 where
  pub code : Text
  pub message_ : Text
  pub retryable : Bool

unfoldable pub starts_with : Text → Text → Bool
starts_with [] t = true
starts_with (x ∷ xs) [] = false
starts_with (x ∷ xs) (y ∷ ys) = x == y && starts_with xs ys

-- `str::contains`
unfoldable pub contains : Text → Text → Bool
contains part [] = starts_with part []
contains part (y ∷ ys) = starts_with part (y ∷ ys) || contains part ys

abbrev storage_quota_exceeded : PublicError
storage_quota_exceeded = record {
  code = text "storage_quota_exceeded";
  message_ = text "server ciphertext storage quota exceeded";
  retryable = false;
}

abbrev storage_pressure : PublicError
storage_pressure = record {
  code = text "storage_pressure";
  message_ = text "server disk reserve reached; retry after storage cleanup";
  retryable = true;
}

abbrev request_rejected : PublicError
request_rejected = record {
  code = text "request_rejected";
  message_ = text "request rejected";
  retryable = false;
}

-- A substring of the error's text, and what is told if it is there.
abbrev rules : List (Text × PublicError)
rules =
    (
      text "too many authentication attempts",
      record {
        code = text "rate_limited";
        message_ = text "too many authentication attempts; retry later";
        retryable = true;
      },
    )
    ∷ (
      text "password must contain",
      record {
        code = text "password_policy";
        message_ = text "password does not meet the server policy";
        retryable = false;
      },
    )
    ∷ (
      text "invalid credentials",
      record {
        code = text "invalid_credentials";
        message_ = text "invalid credentials";
        retryable = false;
      },
    )
    ∷ (
      text "password change is required",
      record {
        code = text "password_change_required";
        message_ = text "password change is required";
        retryable = false;
      },
    )
    ∷ (
      text "recipient device is unavailable",
      record {
        code = text "recipient_roster_changed";
        message_ = text "recipient device roster changed; refresh and retry";
        retryable = true;
      },
    )
    ∷ (
      text "cannot revoke the current device",
      record {
        code = text "device_revoke_forbidden";
        message_ = text "the current device cannot revoke itself";
        retryable = false;
      },
    )
    ∷ (
      text "user not found",
      record { code = text "user_not_found"; message_ = text "user not found"; retryable = false },
    )
    ∷ []

-- The chain of `else if`.
unfoldable pub first_rule : List (Text × PublicError) → Text → PublicError
first_rule [] t = request_rejected
first_rule ((part, told) ∷ rest) t =
    let later = first_rule rest t in if contains part t then told else later

-- The text of a refused constraint is SQLite's, which holds none of the substrings.
unfoldable pub public_error : Error → PublicError
public_error (storage account_quota) = storage_quota_exceeded
public_error (storage total_quota) = storage_quota_exceeded
public_error (storage disk_pressure) = storage_pressure
public_error (message m) = first_rule rules (text m)
public_error constraint = request_rejected
