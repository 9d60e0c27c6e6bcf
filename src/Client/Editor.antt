-- ===== src/Client/Editor.antt =====
-- crates/client/src/editor.rs: the text that is being written, and its cursor, a byte index. A
-- slice, an insertion or a removal at an index that is no character boundary panics; here it is
-- an error. The crates unicode-segmentation and unicode-width are parameters.
pub mod Clean
pub mod Graphemes
pub mod Boundary
pub mod Loops
pub mod Lines
pub mod Trim
pub mod Control
pub mod Normalize
pub mod Moves
pub mod Insert
pub mod Vertical
pub mod Run
use tui_chat.Base.{
  ℕ, zero, suc, ◌+◌, ◌-◌, ltb, leb, Bool, true, false, not, ◌&&◌, ◌||◌, List, [], ◌∷◌, ◌++◌, Option,
  none, some, unwrap_or, Result, ok, err, message, bail_if, ◌>>=◌, ◌>>◌, ◌==◌, ◌!=◌, nat_eq,
  list_eq, length, take, drop, count, all, if◌then◌else◌,
}
use tui_chat.Base.Text.{Text}
use tui_chat.Client.Editor.Clean.{normalize, trim_end, is_blank}
use tui_chat.Client.Editor.Graphemes.{
  Unicode, concat, total, last_index, fitting, last_word, display_column, visual_position,
}

pub record EditorState : Type 0 where
  pub text : Text
  pub cursor : ℕ
  pub preferred_column : Option ℕ

-- `str::is_char_boundary`
unfoldable pub is_char_boundary : Text → ℕ → Bool
is_char_boundary text index =
    index == 0
    || (elim (drop index text) [ [] ↦ index == length text | b ∷ bs ↦ ltb b 128 || leb 192 b ])

unfoldable pub check_boundary : Text → ℕ → Result (Unit {0})
check_boundary text index =
    bail_if (not (is_char_boundary text index)) (message "not a char boundary")

-- `&text[..index]`, `&text[index..]` and `&text[start..end]`
unfoldable pub slice_to : Text → ℕ → Result Text
slice_to text index = do check_boundary text index; ok (take index text)

unfoldable pub slice_from : Text → ℕ → Result Text
slice_from text index = do check_boundary text index; ok (drop index text)

unfoldable pub slice : Text → ℕ → ℕ → Result Text
slice text start end = do
  bail_if (ltb end start) (message "slice index starts after its end")
  check_boundary text start
  check_boundary text end
  ok (take (end - start) (drop start text))

-- `insert_str` and `replace_range(start..end, "")`
unfoldable pub insert_str : Text → ℕ → Text → Result Text
insert_str text index value = do
  check_boundary text index
  ok (take index text ++ (value ++ drop index text))

unfoldable pub remove_range : Text → ℕ → ℕ → Result Text
remove_range text start end = do
  bail_if (ltb end start) (message "slice index starts after its end")
  check_boundary text start
  check_boundary text end
  ok (take start text ++ drop end text)

-- `rfind('\n').map_or(0, |index| index + 1)`: `n` bytes are behind, and the line starts at `start`.
unfoldable pub line_start : ℕ → ℕ → Text → ℕ
line_start n start [] = start
line_start n start (b ∷ bs) = line_start (suc n) (if b == 10 then suc n else start) bs

-- `find('\n')`, or the length.
unfoldable pub line_end : Text → ℕ
line_end [] = 0
line_end (b ∷ bs) = let rest = line_end bs in if b == 10 then 0 else suc rest

abbrev pub at : EditorState → ℕ → EditorState
at s cursor = record s { cursor = cursor; preferred_column = none }

abbrev pub new : EditorState
new = record { text = []; cursor = 0; preferred_column = none }

unfoldable pub set : Text → EditorState
set text = record { text = text; cursor = length text; preferred_column = none }

abbrev pub clear : EditorState → EditorState
clear s = record s { text = []; cursor = 0; preferred_column = none }

unfoldable pub move_start : EditorState → EditorState
move_start s = at s 0

unfoldable pub move_end : EditorState → EditorState
move_end s = at s (length s.text)

unfoldable pub move_line_start : EditorState → Result EditorState
move_line_start s = do before ← slice_to s.text s.cursor; ok (at s (line_start 0 0 before))

unfoldable pub move_line_end : EditorState → Result EditorState
move_line_end s = do after ← slice_from s.text s.cursor; ok (at s (s.cursor + line_end after))

unfoldable pub delete_to_line_start : EditorState → Result EditorState
delete_to_line_start s = do
  before ← slice_to s.text s.cursor
  let start = line_start 0 0 before
  text ← remove_range s.text start s.cursor
  ok (at (record s { text = text }) start)

-- `text.lines().count().max(1)`: a final newline begins no line.
unfoldable pub ends_in_line : Text → Bool
ends_in_line [] = false
ends_in_line (b ∷ []) = b != 10
ends_in_line (b ∷ c ∷ bs) = ends_in_line (c ∷ bs)

unfoldable pub line_count : EditorState → ℕ
line_count s =
    let lines = count (λ b. b == 10) s.text + (if ends_in_line s.text then 1 else 0) in
    if lines == 0 then 1 else lines

module _ (unicode : Unicode) where
  unfoldable pub previous_grapheme : Text → ℕ → Result ℕ
  previous_grapheme text cursor = do
    before ← slice_to text cursor
    ok (last_index 0 cursor (unicode.graphemes before))

  unfoldable pub next_grapheme : Text → ℕ → Result ℕ
  next_grapheme text cursor = do
    after ← slice_from text cursor
    ok (elim (unicode.graphemes after) [ [] ↦ cursor | g ∷ gs ↦ cursor + length g ])

  -- What of `value` fits; the flag says whether all of it did.
  unfoldable pub accept : ℕ → Text → Text
  accept remaining normalized =
      if leb (length normalized) remaining
      then normalized
      else take (fitting 0 remaining (unicode.graphemes normalized)) normalized

  unfoldable pub insert : Text → ℕ → EditorState → Result (EditorState × Bool)
  insert [] max_bytes s = ok (s, true)
  insert (b ∷ bs) max_bytes s = if leb max_bytes (length s.text) then ok (s, false) else (do
    let normalized = normalize (b ∷ bs)
    let accepted = accept (max_bytes - length s.text) normalized
    text ← insert_str s.text s.cursor accepted
    ok (
      record { text = text; cursor = s.cursor + length accepted; preferred_column = none },
      length accepted == length normalized,
    ))

  unfoldable pub move_left : EditorState → Result EditorState
  move_left s = do cursor ← previous_grapheme s.text s.cursor; ok (at s cursor)

  unfoldable pub move_right : EditorState → Result EditorState
  move_right s = do cursor ← next_grapheme s.text s.cursor; ok (at s cursor)

  unfoldable pub delete_backward : EditorState → Result EditorState
  delete_backward s = do
    previous ← previous_grapheme s.text s.cursor
    if previous != s.cursor
        then (do
          text ← remove_range s.text previous s.cursor
          ok (at (record s { text = text }) previous))
        else ok (at s s.cursor)

  unfoldable pub delete_forward : EditorState → Result EditorState
  delete_forward s = do
    next ← next_grapheme s.text s.cursor
    if next != s.cursor
        then (do
          text ← remove_range s.text s.cursor next
          ok (at (record s { text = text }) s.cursor))
        else ok (at s s.cursor)

  unfoldable pub delete_word_backward : EditorState → Result EditorState
  delete_word_backward s = if s.cursor == 0 then ok s else (do
    before ← slice_to s.text s.cursor
    let word_start = last_word is_blank 0 0 (unicode.words (trim_end before))
    text ← remove_range s.text word_start s.cursor
    ok (at (record s { text = text }) word_start))

  unfoldable pub byte_at_display_column : Text → ℕ → ℕ → ℕ → Result ℕ
  byte_at_display_column text start end column = do
    line ← slice text start end
    ok (display_column unicode.width column end start 0 (unicode.graphemes line))

  -- The line before the one of the cursor, or the line after; `none` where there is none.
  unfoldable pub target_line : Bool → Text → ℕ → ℕ → Result (Option (ℕ × ℕ))
  target_line up text current_start current_end =
      if up
      then (if current_start == 0 then ok none else (do
        before ← slice_to text (current_start - 1)
        ok (some (line_start 0 0 before, current_start - 1))))
      else if current_end == length text
      then ok none
      else (do
        after ← slice_from text (current_end + 1)
        ok (some (current_end + 1, current_end + 1 + line_end after)))

  -- `up` is `direction < 0`.
  unfoldable pub move_vertical : Bool → EditorState → Result EditorState
  move_vertical up s = do
    before ← slice_to s.text s.cursor
    after ← slice_from s.text s.cursor
    let current_start = line_start 0 0 before
    let current_end = s.cursor + line_end after
    line ← slice s.text current_start s.cursor
    let column = unwrap_or s.preferred_column (unicode.width line)
    target ← target_line up s.text current_start current_end
    elim target [
      | none ↦ ok s
      | some (start, end) ↦ do
        cursor ← byte_at_display_column s.text start end column
        ok (record s { cursor = cursor; preferred_column = some column })
    ]

  unfoldable pub set_cursor_by_visual_position : ℕ → ℕ → ℕ → EditorState → EditorState
  set_cursor_by_visual_position target_row target_column wrap_width s = at s (
      visual_position unicode.width (length s.text) target_row target_column
        (if wrap_width == 0 then 1 else wrap_width) 0 0 0 0 (unicode.graphemes s.text))
