-- ===== src/Client/Editor/Graphemes.antt =====
-- Loops over the graphemes and the words of crates/client/src/editor.rs.
use tui_chat.Base.{
  ℕ, suc, ◌+◌, ◌≡◌, ◌<◌, ltb, leb, Bool, true, ◌&&◌, ◌||◌, List, [], ◌∷◌, ◌++◌, ◌==◌, nat_eq,
  list_eq, length, All, if◌then◌else◌,
}
use tui_chat.Base.Text.{Text}
use tui_chat.Base.Utf8.{is_utf8}

-- unicode-segmentation and unicode-width.
pub record Unicode : Type 0 where
  pub graphemes : Text → List Text
  pub words : Text → List Text
  pub width : Text → ℕ

unfoldable pub concat : List Text → Text
concat [] = []
concat (g ∷ gs) = g ++ concat gs

-- The parts of a text: strings that are not empty and make it up in order.
abbrev pub Parts : Text → List Text → Type 0
Parts t gs = (concat gs ≡ t) × All (λ g. (0 < length g) × (is_utf8 g ≡ true)) gs

-- Graphemes and words are the parts of a string.
pub record IsUnicode (unicode : Unicode) : Type 0 where
  pub graphemes_parts : (t : Text) → is_utf8 t ≡ true → Parts t (unicode.graphemes t)
  pub words_parts : (t : Text) → is_utf8 t ≡ true → Parts t (unicode.words t)

unfoldable pub total : List Text → ℕ
total [] = 0
total (g ∷ gs) = length g + total gs

-- The index of the last part, `other` without one; `index` is that of the first.
unfoldable pub last_index : ℕ → ℕ → List Text → ℕ
last_index index other [] = other
last_index index other (g ∷ gs) = last_index (index + length g) index gs

-- The last end that is within `remaining`, while the ends are.
unfoldable pub fitting : ℕ → ℕ → List Text → ℕ
fitting end remaining [] = end
fitting end remaining (g ∷ gs) =
    let rest = fitting (end + length g) remaining gs in
    if leb (end + length g) remaining then rest else end

-- `rfind(|(_, part)| !blank(part)).map_or(0, |(index, _)| index)`
unfoldable pub last_word : (Text → Bool) → ℕ → ℕ → List Text → ℕ
last_word blank index found [] = found
last_word blank index found (w ∷ ws) =
    last_word blank (index + length w) (if blank w then found else index) ws

-- The loop of `byte_at_display_column`; `index` is absolute.
unfoldable pub display_column : (Text → ℕ) → ℕ → ℕ → ℕ → ℕ → List Text → ℕ
display_column width_of column end index width [] = end
display_column width_of column end index width (g ∷ gs) =
    let rest = display_column width_of column end (index + length g) (width + width_of g) gs in
    if ltb column (width + width_of g)
    then index
    else if width + width_of g == column
    then index + length g
    else rest

abbrev newline : Text
newline = 10 ∷ []

abbrev wraps : ℕ → ℕ → ℕ → Bool
wraps wrap_width column width =
    column == wrap_width || (ltb 0 column && ltb wrap_width (column + width))

abbrev at_least_one : ℕ → ℕ
at_least_one n = if n == 0 then 1 else n

-- The loop of `set_cursor_by_visual_position` from `index`, and the cursor that it sets.
unfoldable pub visual_position : (Text → ℕ) → ℕ → ℕ → ℕ → ℕ → ℕ → ℕ → ℕ → ℕ → List Text → ℕ
visual_position width_of end target_row target_column wrap_width row column last_cursor index [] =
    if ltb row target_row || leb column target_column then end else last_cursor
visual_position width_of end target_row target_column wrap_width row column last_cursor index
      (g ∷ gs) =
    let width = at_least_one (width_of g) in
    let row' = if wraps wrap_width column width then suc row else row in
    let column' = if wraps wrap_width column width then 0 else column in
    let next = index + length g in
    let next_line =
      visual_position width_of end target_row target_column wrap_width (suc row) 0 next next gs in
    let same_line =
      visual_position width_of end target_row target_column wrap_width row' (column' + width) next
        next gs in
    if g == newline
    then (if row == target_row then index else next_line)
    else if row' == target_row && ltb target_column (column' + width)
    then index
    else if ltb target_row row'
    then index
    else same_line
