-- ===== src/Base/Text.antt =====
-- Rust strings as their UTF-8 bytes.
use Prim.Native.Nat.{ℕ, ◌+◌}
use Prim.Native.Char.{code}
use Prim.Native.String.{String}
use mathlib.Core.Bool.{Bool, ◌&&◌, ◌||◌}
use mathlib.Core.List.{List, [], ◌∷◌, map}
use tui_chat.Base.Tests.{leb, ltb, if◌then◌else◌}
use tui_chat.Base.Equality.{nat_eq}
use tui_chat.Base.Lists.{count}

abbrev pub Bytes : Type 0
Bytes = List ℕ

-- A string is the list of its bytes.
abbrev pub Text : Type 0
Text = Bytes

abbrev codes : String → Text
codes String.[] = []
codes (String.◌∷◌ c s) = code c ∷ codes s

-- A literal, which is ASCII.
unfoldable pub text : String → Text
text = codes

pub is_ascii_uppercase : ℕ → Bool
is_ascii_uppercase b = leb b'A' b && leb b b'Z'

-- `u8::to_ascii_lowercase`
unfoldable pub to_lower : ℕ → ℕ
unfolding is_ascii_uppercase
to_lower b = if is_ascii_uppercase b then b + 32 else b

-- `str::to_ascii_lowercase`
unfoldable pub to_ascii_lowercase : Text → Text
unfolding to_lower
to_ascii_lowercase = map to_lower

-- `chars().count()`: the bytes that do not continue a character.
unfoldable pub char_count : Text → ℕ
char_count = count (λ b. ltb b 128 || leb 192 b)
