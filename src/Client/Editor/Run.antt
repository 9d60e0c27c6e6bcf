-- ===== src/Client/Editor/Run.antt =====
-- Any sequence of the operations of crates/client/src/editor.rs.
use tui_chat.Base.{
  ℕ, ◌≡◌, refl, inl, inr, Bool, true, List, [], ◌∷◌, Result, ok, ◌>>=◌, leb, length, arith, All,
  Bool-cases,
}
use tui_chat.Base.Text.{Text}
use tui_chat.Base.Utf8.{is_utf8}
use tui_chat.Client.Editor.{
  EditorState, set, clear, insert, move_start, move_end, move_line_start, move_line_end,
  delete_to_line_start, move_left, move_right, delete_backward, delete_forward,
  delete_word_backward, move_vertical, set_cursor_by_visual_position,
}
use tui_chat.Client.Editor.Graphemes.{Unicode, IsUnicode}
use tui_chat.Client.Editor.Loops.{nil_utf8, IsSplit-zero, IsSplit-length}
use tui_chat.Client.Editor.Insert.{insert-IsEditor}
use tui_chat.Client.Editor.Moves.{
  IsEditor, Edits, move_line_start-IsEditor, move_line_end-IsEditor, delete_to_line_start-IsEditor,
  move_left-IsEditor, move_right-IsEditor, delete_backward-IsEditor, delete_forward-IsEditor,
}
use tui_chat.Client.Editor.Vertical.{
  delete_word_backward-IsEditor, set_cursor_by_visual_position-IsEditor, move_vertical-IsEditor,
}

-- One call of the editor; `vertically true` is a move up.
pub data Edit : Type 0 where
  inserted : Text → ℕ → Edit
  replaced : Text → Edit
  cleared : Edit
  left : Edit
  right : Edit
  to_start : Edit
  to_end : Edit
  to_line_start : Edit
  to_line_end : Edit
  vertically : Bool → Edit
  backward : Edit
  forward : Edit
  word_backward : Edit
  up_to_line_start : Edit
  visually : ℕ → ℕ → ℕ → Edit

unfoldable pub perform : Unicode → Edit → EditorState → Result EditorState
perform unicode (inserted value max_bytes) s = do
  (s', complete) ← insert unicode value max_bytes s
  ok s'
perform unicode (replaced value) s = ok (set value)
perform unicode cleared s = ok (clear s)
perform unicode left s = move_left unicode s
perform unicode right s = move_right unicode s
perform unicode to_start s = ok (move_start s)
perform unicode to_end s = ok (move_end s)
perform unicode to_line_start s = move_line_start s
perform unicode to_line_end s = move_line_end s
perform unicode (vertically up) s = move_vertical unicode up s
perform unicode backward s = delete_backward unicode s
perform unicode forward s = delete_forward unicode s
perform unicode word_backward s = delete_word_backward unicode s
perform unicode up_to_line_start s = delete_to_line_start s
perform unicode (visually row column wrap_width) s =
    ok (set_cursor_by_visual_position unicode row column wrap_width s)

unfoldable pub run : Unicode → List Edit → EditorState → Result EditorState
run unicode [] s = ok s
run unicode (edit ∷ edits) s = do s' ← perform unicode edit s; run unicode edits s'

-- A `&str` is UTF-8.
unfoldable pub IsStr : Edit → Type 0
IsStr (inserted value max_bytes) = is_utf8 value ≡ true
IsStr (replaced value) = is_utf8 value ≡ true
IsStr cleared = Unit
IsStr left = Unit
IsStr right = Unit
IsStr to_start = Unit
IsStr to_end = Unit
IsStr to_line_start = Unit
IsStr to_line_end = Unit
IsStr (vertically up) = Unit
IsStr backward = Unit
IsStr forward = Unit
IsStr word_backward = Unit
IsStr up_to_line_start = Unit
IsStr (visually row column wrap_width) = Unit

module _ (unicode : Unicode) (law : IsUnicode unicode) where
  inserted-IsEditor :
      (value : Text) (max_bytes : ℕ) (s : EditorState)
      → is_utf8 value ≡ true
      → IsEditor s
      → Edits (perform unicode (inserted value max_bytes) s)
  unfolding perform insert
  inserted-IsEditor [] max_bytes s h v = (s, refl, v)
  inserted-IsEditor (b ∷ bs) max_bytes s h v = elim (Bool-cases (leb max_bytes (length s.text))) [
    | inl full ↦ (s, ground (arith, full), v)
    | inr room ↦
        let (s', flag, e, v', bound) =
          insert-IsEditor unicode law s v (b ∷ bs) max_bytes h (ground (arith, room)) in
        (s', ground (arith, e), v')
  ]

  perform-IsEditor :
      (edit : Edit) (s : EditorState) → IsStr edit → IsEditor s → Edits (perform unicode edit s)
  unfolding perform IsStr set move_start move_end
  perform-IsEditor (inserted value max_bytes) s h v = inserted-IsEditor value max_bytes s h v
  perform-IsEditor (replaced value) s h v =
      (set value, refl, record { text = h; cursor = IsSplit-length value h })
  perform-IsEditor cleared s h v =
      (clear s, refl, record { text = nil_utf8; cursor = IsSplit-zero [] nil_utf8 })
  perform-IsEditor left s h v = move_left-IsEditor unicode law s v
  perform-IsEditor right s h v = move_right-IsEditor unicode law s v
  perform-IsEditor to_start s h v =
      (move_start s, refl, record { text = v.text; cursor = IsSplit-zero s.text v.text })
  perform-IsEditor to_end s h v =
      (move_end s, refl, record { text = v.text; cursor = IsSplit-length s.text v.text })
  perform-IsEditor to_line_start s h v = move_line_start-IsEditor s v
  perform-IsEditor to_line_end s h v = move_line_end-IsEditor s v
  perform-IsEditor (vertically up) s h v = move_vertical-IsEditor unicode law s v up
  perform-IsEditor backward s h v = delete_backward-IsEditor unicode law s v
  perform-IsEditor forward s h v = delete_forward-IsEditor unicode law s v
  perform-IsEditor word_backward s h v = delete_word_backward-IsEditor unicode law s v
  perform-IsEditor up_to_line_start s h v = delete_to_line_start-IsEditor s v
  perform-IsEditor (visually row column wrap_width) s h v = (
    set_cursor_by_visual_position unicode row column wrap_width s,
    refl,
    set_cursor_by_visual_position-IsEditor unicode law s v row column wrap_width,
  )

  -- Where the graphemes and the words of a text are its parts and the texts that are given are UTF-8:
  -- from a text that is UTF-8 and a cursor at a character boundary, a sequence of edits never
  -- panics, and it leaves a text and a cursor of that kind.
  pub run-IsEditor :
      (edits : List Edit) (s : EditorState)
      → All IsStr edits
      → IsEditor s
      → (s' : EditorState) × (run unicode edits s ≡ ok s') × IsEditor s'
  unfolding run
  run-IsEditor [] s h v = (s, refl, v)
  run-IsEditor (edit ∷ edits) s h v =
      let (s', e, v') = perform-IsEditor edit s h.0 v in
      let (s'', e', v'') = run-IsEditor edits s' h.1 v' in (s'', ground (arith, e, e'), v'')
