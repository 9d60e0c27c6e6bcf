-- ===== src/Base/Utf8.antt =====
-- Rust's check of UTF-8, as `String::from_utf8` makes it.
pub mod Split
use Prim.Native.Nat.{ℕ, zero, suc}
use Prim.Native.String.{String}
use mathlib.Core.Bool.{Bool, true, false, ◌&&◌}
use mathlib.Core.Option.{Option, none, some}
use mathlib.Core.List.{List, [], ◌∷◌}
use tui_chat.Base.Tests.{leb, ltb, if◌then◌else◌}
use tui_chat.Base.Outcome.{Result, ok, err, message}
use tui_chat.Base.Text.{Bytes, Text}

-- How many bytes follow a first byte, and the range of the next one.
unfoldable pub follow : ℕ → Option (ℕ × ℕ × ℕ)
follow b =
    if ltb b 128
    then some (0, 128, 191)
    else if ltb b 194
    then none
    else if ltb b 224
    then some (1, 128, 191)
    else if ltb b 240
    then some (
      2,
      if leb b 224 then 160 else 128,
      if leb b 236 then 191 else if leb b 237 then 159 else 191,
    )
    else if leb b 244
    then some (3, if leb b 240 then 144 else 128, if leb b 243 then 191 else 143)
    else none

-- `k` more bytes of the current character, the next one from `lo` to `hi`.
unfoldable pub utf8_rest : ℕ → ℕ → ℕ → Bytes → Bool
utf8_rest zero lo hi [] = true
utf8_rest (suc k) lo hi [] = false
utf8_rest zero lo hi (b ∷ bs) = elim (follow b) [
  | none ↦ false
  | some (n, lo', hi') ↦ utf8_rest n lo' hi' bs
]
utf8_rest (suc k) lo hi (b ∷ bs) = leb lo b && (leb b hi && utf8_rest k 128 191 bs)

unfoldable pub is_utf8 : Bytes → Bool
unfolding utf8_rest follow
is_utf8 bytes = utf8_rest 0 128 191 bytes

unfoldable pub from_utf8 : Bytes → Result Text
from_utf8 bytes = if is_utf8 bytes then ok bytes else err (message "invalid utf-8 sequence")
