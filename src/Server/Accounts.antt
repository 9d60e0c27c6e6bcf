-- ===== src/Server/Accounts.antt =====
-- The rules for user names and passwords in crates/server/src/admin.rs.
use tui_chat.Base.{
  ℕ, ltb, leb, Bool, not, ◌&&◌, ◌||◌, Result, ok, err, message, if◌then◌else◌, ◌==◌, nat_eq, length,
  all, any,
}
use tui_chat.Base.Text.{Text, text, to_ascii_lowercase, char_count}

unfoldable pub is_username_byte : ℕ → Bool
is_username_byte b =
    leb b'a' b && leb b b'z' || leb b'0' b && leb b b'9' || any (λ c. c == b) (text "_.-")

unfoldable pub normalize_username : Text → Result Text
unfolding is_username_byte
normalize_username username =
    let lower = to_ascii_lowercase username in
    if ltb (length lower) 3 || ltb 32 (length lower) || not (all is_username_byte lower)
    then err (message "username must be 3-32 ASCII characters: a-z, 0-9, _, ., -")
    else ok lower

unfoldable pub is_valid_password : Text → Bool
is_valid_password password = not (ltb (char_count password) 12 || ltb 1024 (length password))

unfoldable pub validate_password : Text → Result (Unit {0})
unfolding is_valid_password
validate_password password =
    if is_valid_password password
    then ok tt
    else err (message "password must contain 12-1024 characters")
