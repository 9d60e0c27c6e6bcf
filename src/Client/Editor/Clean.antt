-- ===== src/Client/Editor/Clean.antt =====
-- The characters of crates/client/src/editor.rs: line endings, control characters and white space,
-- as UTF-8 bytes.
use tui_chat.Base.{
  ℕ, ltb, leb, Bool, false, ◌&&◌, ◌||◌, List, [], ◌∷◌, ◌++◌, ◌==◌, nat_eq, list_eq, all,
  if◌then◌else◌,
}
use tui_chat.Base.Text.{Text}

-- `replace("\r\n", "\n")`
unfoldable pub replace_crlf : Text → Text
replace_crlf [] = []
replace_crlf (b ∷ []) = b ∷ []
replace_crlf (b ∷ c ∷ bs) =
    let rest = replace_crlf (c ∷ bs) in if b == 13 && c == 10 then rest else b ∷ rest

-- `replace('\r', "\n")`
unfoldable pub replace_cr : Text → Text
replace_cr [] = []
replace_cr (b ∷ bs) = (if b == 13 then 10 else b) ∷ replace_cr bs

-- U+FFFD
abbrev pub replacement : Text
replacement = 0xef ∷ 0xbf ∷ 0xbd ∷ []

-- One character of a single byte, or one byte of a longer one.
unfoldable pub clean_byte : ℕ → Text → Text
clean_byte b rest =
    if b == 10
    then 10 ∷ rest
    else if b == 9
    then 32 ∷ 32 ∷ 32 ∷ 32 ∷ rest
    else if ltb b 32 || b == 127
    then replacement ++ rest
    else b ∷ rest

-- `char::is_control` for two bytes: U+0080 to U+009F.
abbrev pub is_c1 : ℕ → ℕ → Bool
is_c1 b c = b == 0xc2 && (leb 0x80 c && leb c 0x9f)

-- The loop over `line_endings.chars()`.
unfoldable pub clean : Text → Text
unfolding clean_byte
clean [] = []
clean (b ∷ []) = clean_byte b []
clean (b ∷ c ∷ bs) =
    let rest = clean (c ∷ bs) in
    let after = clean bs in if is_c1 b c then replacement ++ after else clean_byte b rest

unfoldable pub normalize : Text → Text
unfolding replace_crlf replace_cr clean
normalize value = clean (replace_cr (replace_crlf value))

-- The characters of a text: a byte that continues one belongs to the byte before it.
unfoldable pub attach : ℕ → List Text → List Text
attach b [] = (b ∷ []) ∷ []
attach b ([] ∷ cs) = (b ∷ []) ∷ cs
attach b ((c ∷ bs) ∷ cs) =
    if leb 128 c && ltb c 192 then (b ∷ c ∷ bs) ∷ cs else (b ∷ []) ∷ (c ∷ bs) ∷ cs

unfoldable pub chars : Text → List Text
unfolding attach
chars [] = []
chars (b ∷ bs) = attach b (chars bs)

-- `char::is_whitespace`
unfoldable pub is_whitespace : Text → Bool
is_whitespace [] = false
is_whitespace (a ∷ []) = (leb 9 a && leb a 13) || a == 32
is_whitespace (a ∷ b ∷ []) = a == 0xc2 && (b == 0x85 || b == 0xa0)
is_whitespace (a ∷ b ∷ c ∷ []) =
    (a == 0xe1 && (b == 0x9a && c == 0x80))
    || ((a == 0xe2
          && (b == 0x80 && ((leb 0x80 c && leb c 0x8a) || (c == 0xa8 || (c == 0xa9 || c == 0xaf)))))
        || ((a == 0xe2 && (b == 0x81 && c == 0x9f)) || (a == 0xe3 && (b == 0x80 && c == 0x80))))
is_whitespace (a ∷ b ∷ c ∷ d ∷ rest) = false

-- `trim_end_matches(char::is_whitespace)`
unfoldable pub trim_chars : List Text → Text
trim_chars [] = []
trim_chars (c ∷ cs) = elim (trim_chars cs) [
  | [] ↦ if is_whitespace c then [] else c
  | b ∷ bs ↦ c ++ (b ∷ bs)
]

unfoldable pub trim_end : Text → Text
unfolding trim_chars chars
trim_end t = trim_chars (chars t)

-- `part.chars().all(char::is_whitespace)`
unfoldable pub is_blank : Text → Bool
unfolding chars
is_blank part = all is_whitespace (chars part)
