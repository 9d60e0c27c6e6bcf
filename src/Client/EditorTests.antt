-- ===== src/Client/EditorTests.antt =====
-- Runs of crates/client/src/editor.rs on concrete texts, where every byte is a grapheme and a word.
use mathlib.Core.List.{append-nil}
use tui_chat.Base.{
  ◌≡◌, ◌≤◌, refl, Bool, true, false, List, [], ◌∷◌, none, ok, length, arith, list_eq, nat_eq,
}
use tui_chat.Base.Text.{Text}
use tui_chat.Base.Utf8.{follow, utf8_rest, is_utf8}
use tui_chat.Client.Editor.{EditorState, insert}
use tui_chat.Client.Editor.Graphemes.{Unicode, IsUnicode, Parts, concat}
use tui_chat.Client.Editor.Insert.{insert-IsEditor, insert_safe, IsSpliced}
use tui_chat.Client.Editor.Moves.{IsEditor}
use tui_chat.Client.Editor.Run.{
  Edit, inserted, left, to_line_start, vertically, backward, word_backward, run, IsStr,
  run-IsEditor,
}

-- A text as one part.
abbrev whole : Text → List Text
whole t = elim t [ [] ↦ [] | b ∷ bs ↦ (b ∷ bs) ∷ [] ]

abbrev one_part : Unicode
one_part = record { graphemes = whole; words = whole; width = λ t. 1 }

whole-Parts : (t : Text) → is_utf8 t ≡ true → Parts t (whole t)
unfolding concat
whole-Parts [] h = (refl, tt)
whole-Parts (b ∷ bs) h = (append-nil (b ∷ bs), ((omega arith, h), tt))

one_part-IsUnicode : IsUnicode one_part
one_part-IsUnicode = record { graphemes_parts = whole-Parts; words_parts = whole-Parts }

-- "é", a newline and "a", with the cursor between.
abbrev a_text : Text
a_text = 0xc3 ∷ 0xa9 ∷ 10 ∷ 97 ∷ []

abbrev a_editor : EditorState
a_editor = record { text = a_text; cursor = 2; preferred_column = none }

a_editor-IsEditor : IsEditor a_editor
unfolding is_utf8 utf8_rest follow
a_editor-IsEditor = record {
  text = refl;
  cursor = record { within = omega arith; before = refl; after = refl };
}

-- A carriage return, an escape and a letter.
abbrev a_paste : Text
a_paste = 13 ∷ 27 ∷ 98 ∷ []

a_paste-utf8 : is_utf8 a_paste ≡ true
unfolding is_utf8 utf8_rest follow
a_paste-utf8 = refl

insert_safe_example :
    (s' : EditorState) × (flag : Bool) × (insert one_part a_paste 20 a_editor ≡ ok (s', flag))
    × IsSpliced a_paste a_editor s' flag
insert_safe_example =
    insert_safe one_part one_part-IsUnicode a_editor a_editor-IsEditor a_paste 20 a_paste-utf8

insert-IsEditor_example :
    (s' : EditorState) × (flag : Bool) × (insert one_part a_paste 20 a_editor ≡ ok (s', flag))
    × IsEditor s'
    × (length s'.text ≤ 20)
insert-IsEditor_example =
    insert-IsEditor one_part one_part-IsUnicode a_editor a_editor-IsEditor a_paste 20 a_paste-utf8
      (omega arith)

abbrev a_session : List Edit
a_session =
    inserted a_paste 20 ∷ left ∷ vertically false ∷ backward ∷ word_backward ∷ to_line_start ∷ []

run-IsEditor_example : (s' : EditorState) × (run one_part a_session a_editor ≡ ok s') × IsEditor s'
unfolding IsStr
run-IsEditor_example =
    run-IsEditor one_part one_part-IsUnicode a_session a_editor
      (a_paste-utf8, (tt, (tt, (tt, (tt, (tt, tt)))))) a_editor-IsEditor
