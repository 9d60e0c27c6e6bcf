-- ===== src/Client/Editor/Vertical.antt =====
-- The operations of crates/client/src/editor.rs that look at words, lines and screen positions.
use tui_chat.Base.{
  ℕ, ◌+◌, ◌-◌, ◌≡◌, ◌≤◌, ◌<◌, sym, ap, ◌∙◌, subst, inl, inr, Bool, true, false, [], Option, none,
  some, unwrap_or, ok, ◌==◌, nat_eq, length, take, drop, if◌then◌else◌, arith, Bool-cases,
}
use tui_chat.Base.Slices.{take-append-drop}
use tui_chat.Base.Text.{Text}
use tui_chat.Base.Utf8.{is_utf8}
use tui_chat.Crypto.Frame.{length-append}
use tui_chat.Client.Editor.{
  EditorState, at, line_start, line_end, slice, target_line, byte_at_display_column, move_vertical,
  delete_word_backward, set_cursor_by_visual_position,
}
use tui_chat.Client.Editor.Clean.{is_blank, trim_end}
use tui_chat.Client.Editor.Graphemes.{Unicode, IsUnicode, concat, last_word, visual_position}
use tui_chat.Client.Editor.Boundary.{
  IsSplit, IsSplit-boundary, IsSplit-append_left, IsSplit-between, IsSplit-take, IsSplit-drop,
  length-take, slice_to-IsSplit, slice_from-IsSplit,
}
use tui_chat.Client.Editor.Lines.{line_start_before, line_end_after}
use tui_chat.Client.Editor.Loops.{
  nil_utf8, IsSplit-zero, IsSplit-length, last_word-IsSplit, display_column-IsSplit,
  visual_position-IsSplit,
}
use tui_chat.Client.Editor.Trim.{trim_end-append}
use tui_chat.Client.Editor.Moves.{IsEditor, Edits, removed, line_start_of, line_end_of}

-- A line by its two ends, if there is one.
IsLine : Text → Option (ℕ × ℕ) → Type 0
IsLine t none = Unit
IsLine t (some (start, end)) = IsSplit t start × IsSplit t end × (start ≤ end)

module _ (unicode : Unicode) (law : IsUnicode unicode) where
  -- The start of the last word.
  word_of :
      (t : Text) (i : ℕ)
      → IsSplit t i
      → IsSplit t (last_word is_blank 0 0 (unicode.words (trim_end (take i t))))
        × (last_word is_blank 0 0 (unicode.words (trim_end (take i t))) ≤ i)
  word_of t i s =
      let (cut, whole, (u, w)) = trim_end-append (take i t) s.before in
      let (e, parts) = law.words_parts (trim_end (take i t)) u in
      let start = last_word is_blank 0 0 (unicode.words (trim_end (take i t))) in
      let found =
        subst (λ (x : Text). IsSplit x start) e
          (last_word-IsSplit is_blank [] 0 (unicode.words (trim_end (take i t))) nil_utf8 parts
            (IsSplit-zero _ (ap is_utf8 e ∙ u))) in
      let k =
        subst (λ (x : Text). IsSplit x start) (sym whole)
          (IsSplit-append_left (trim_end (take i t)) cut start found w) in
      (IsSplit-take t i s start k, omega (arith, k.within, length-take i t s.within))

  -- The index at a column of a line.
  column_of :
      (t : Text) (start end column : ℕ)
      → IsSplit t start
      → IsSplit t end
      → start ≤ end
      → (j : ℕ) × (byte_at_display_column unicode t start end column ≡ ok j) × IsSplit t j
  unfolding byte_at_display_column slice
  column_of t start end column s e le =
      let between = IsSplit-between t start s end e le in
      let line = take (end - start) (drop start t) in
      let (whole, parts) = law.graphemes_parts line between.before in
      let (k, at, split) =
        display_column-IsSplit unicode.width column start 0 [] (unicode.graphemes line) nil_utf8
          parts in
      let stop : start + length (concat (unicode.graphemes line)) ≡ end =
        omega
          (arith, ap length whole, length-take (end - start) (drop start t) between.within, le) in
      (
        start + k,
        ground (arith, le, IsSplit-boundary t start s, IsSplit-boundary t end e, at, stop),
        IsSplit-drop t start s k (
            IsSplit-take (drop start t) (end - start) between k
              (subst (λ (x : Text). IsSplit x k) whole split)),
      )

  -- The line above.
  above :
      (t : Text) (i : ℕ)
      → IsSplit t i
      → (r : Option (ℕ × ℕ)) × (target_line unicode true t
            (line_start 0 0 (take i t))
            (i + line_end (drop i t))
          ≡ ok r)
        × IsLine t r
  unfolding target_line IsLine
  above t i s =
      let start = line_start 0 0 (take i t) in
      elim (Bool-cases (start == 0)) [
        | inl first ↦ (none, ground (arith, first), tt)
        | inr later ↦
            let before =
              IsSplit-take t i s (start - 1)
                (line_start_before [] 0 (take i t) s.before (IsSplit-zero (take i t) s.before)) in
            let (k, le) = line_start_of t (start - 1) before in
            (
              some (line_start 0 0 (take (start - 1) t), start - 1),
              ground (arith, later, slice_to-IsSplit t (start - 1) before),
              (k, before, le),
            )
      ]

  -- The line below.
  below :
      (t : Text) (i : ℕ)
      → IsSplit t i
      → (r : Option (ℕ × ℕ)) × (target_line unicode false t
            (line_start 0 0 (take i t))
            (i + line_end (drop i t))
          ≡ ok r)
        × IsLine t r
  unfolding target_line IsLine
  below t i s =
      let end = i + line_end (drop i t) in
      elim (Bool-cases (end == length t)) [
        | inl last ↦ (none, ground (arith, last), tt)
        | inr more ↦
            let differ : ¬ (end ≡ length t) = ground (arith, more) in
            let inside : line_end (drop i t) < length (drop i t) = omega (
              arith,
              differ,
              (line_end_of t i s).within,
              length-append (take i t) (drop i t),
              ap length (take-append-drop i t),
              length-take i t s.within,
            ) in
            let after =
              subst (IsSplit t) (omega arith)
                (IsSplit-drop t i s _ (line_end_after [] (drop i t) s.after inside)) in
            (
              some (end + 1, end + 1 + line_end (drop (end + 1) t)),
              ground (arith, more, slice_from-IsSplit t (end + 1) after),
              (after, line_end_of t (end + 1) after, omega arith),
            )
      ]

  module _ (s : EditorState) (v : IsEditor s) where
    pub delete_word_backward-IsEditor : Edits (delete_word_backward unicode s)
    unfolding delete_word_backward
    delete_word_backward-IsEditor =
        let (split, le) = word_of s.text s.cursor v.cursor in
        let (e, kept) = removed s v _ split le in
        elim (Bool-cases (s.cursor == 0)) [
          | inl start ↦ (s, ground (arith, start), v)
          | inr inside ↦
              (_, ground (arith, slice_to-IsSplit s.text s.cursor v.cursor, e, inside), kept)
        ]

    pub set_cursor_by_visual_position-IsEditor :
        (row column wrap_width : ℕ)
        → IsEditor (set_cursor_by_visual_position unicode row column wrap_width s)
    unfolding set_cursor_by_visual_position
    set_cursor_by_visual_position-IsEditor row column wrap_width =
        let (e, parts) = law.graphemes_parts s.text v.text in
        let u = ap is_utf8 e ∙ v.text in
        record {
          text = v.text;
          cursor =
              subst
                (λ (x : Text). IsSplit x (
                  visual_position unicode.width (length s.text) row column
                    (if wrap_width == 0 then 1 else wrap_width) 0 0 0 0 (unicode.graphemes s.text)))
                e
                (visual_position-IsSplit unicode.width (length s.text) row column
                  (if wrap_width == 0 then 1 else wrap_width) 0 0 0 [] (unicode.graphemes s.text)
                  nil_utf8 parts
                  (subst (λ (x : Text). IsSplit x (length s.text)) (sym e)
                    (IsSplit-length s.text v.text))
                  (IsSplit-zero _ u));
        }

    -- The cursor goes to the column in the target line.
    moved_to :
        (up : Bool) (r : Option (ℕ × ℕ))
        → target_line unicode up s.text
            (line_start 0 0 (take s.cursor s.text))
            (s.cursor + line_end (drop s.cursor s.text))
          ≡ ok r
        → IsLine s.text r
        → Edits (move_vertical unicode up s)
    unfolding move_vertical slice IsLine
    moved_to up none e l =
        let (start, le) = line_start_of s.text s.cursor v.cursor in
        (
          s,
          ground (
            arith,
            e,
            le,
            slice_to-IsSplit s.text s.cursor v.cursor,
            slice_from-IsSplit s.text s.cursor v.cursor,
            IsSplit-boundary s.text s.cursor v.cursor,
            IsSplit-boundary s.text _ start,
          ),
          v,
        )
    moved_to up (some (from, to)) e l =
        let (start, le) = line_start_of s.text s.cursor v.cursor in
        let current = line_start 0 0 (take s.cursor s.text) in
        let column =
          unwrap_or s.preferred_column
            (unicode.width (take (s.cursor - current) (drop current s.text))) in
        let (j, found, split) = column_of s.text from to column l.0 l.1 l.2 in
        (
          record s { cursor = j; preferred_column = some column },
          ground (
            arith,
            e,
            le,
            found,
            slice_to-IsSplit s.text s.cursor v.cursor,
            slice_from-IsSplit s.text s.cursor v.cursor,
            IsSplit-boundary s.text s.cursor v.cursor,
            IsSplit-boundary s.text _ start,
          ),
          record { text = v.text; cursor = split },
        )

    pub move_vertical-IsEditor : (up : Bool) → Edits (move_vertical unicode up s)
    move_vertical-IsEditor true =
        let (r, e, l) = above s.text s.cursor v.cursor in moved_to true r e l
    move_vertical-IsEditor false =
        let (r, e, l) = below s.text s.cursor v.cursor in moved_to false r e l
