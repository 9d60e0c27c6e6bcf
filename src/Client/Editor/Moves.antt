-- ===== src/Client/Editor/Moves.antt =====
-- No operation of crates/client/src/editor.rs panics, and each leaves the cursor at a character
-- boundary of a text that is UTF-8.
use tui_chat.Client.Editor.Lines.{line_start-IsSplit, line_end-IsSplit}
use tui_chat.Client.Editor.Loops.{
  concat-utf8, nil_utf8, AllUtf8, IsSplit-zero, IsSplit-length, last_index-IsSplit,
}
use tui_chat.Client.Editor.Boundary.{
  length-take, IsSplit-append, IsSplit, slice_to-IsSplit, slice_from-IsSplit, remove_range-IsSplit,
  IsSplit-take, IsSplit-drop,
}
use tui_chat.Base.{
  ℕ, zero, suc, ◌+◌, ◌≡◌, ◌≤◌, refl, sym, ap, ◌∙◌, subst, inl, inr, true, List, [], ◌∷◌, ◌++◌,
  Result, ok, ◌!=◌, nat_eq, length, take, drop, arith, Bool-cases,
}
use tui_chat.Base.Slices.{take-append-drop}
use tui_chat.Base.Text.{Text}
use tui_chat.Base.Utf8.{is_utf8}
use tui_chat.Base.Utf8.Split.{utf8-append}
use tui_chat.Client.Editor.{
  EditorState, at, remove_range, line_start, line_end, move_line_start, move_line_end,
  delete_to_line_start, previous_grapheme, next_grapheme, move_left, move_right, delete_backward,
  delete_forward,
}
use tui_chat.Client.Editor.Graphemes.{Unicode, IsUnicode, concat, last_index}

pub record IsEditor (s : EditorState) : Type 0 where
  pub text : is_utf8 s.text ≡ true
  pub cursor : IsSplit s.text s.cursor

-- The operation succeeds, and its result is an editor again.
abbrev pub Edits : Result EditorState → Type 0
Edits r = (s : EditorState) × (r ≡ ok s) × IsEditor s

pub length-take-le : (n : ℕ) (t : Text) → length (take n t) ≤ n
length-take-le zero t = omega arith
length-take-le (suc n) [] = omega arith
length-take-le (suc n) (x ∷ t) = omega (arith, length-take-le n t)

pub IsSplit-utf8 : (t : Text) (i : ℕ) → IsSplit t i → is_utf8 t ≡ true
IsSplit-utf8 t i s =
    ap is_utf8 (sym (take-append-drop i t)) ∙ utf8-append (take i t) (drop i t) s.before s.after

-- Where the line of the cursor starts and ends.
pub line_start_of :
    (t : Text) (i : ℕ)
    → IsSplit t i
    → IsSplit t (line_start 0 0 (take i t)) × (line_start 0 0 (take i t) ≤ i)
line_start_of t i s =
    let start = line_start-IsSplit [] 0 (take i t) s.before (IsSplit-zero (take i t) s.before) in
    (
      IsSplit-take t i s (line_start 0 0 (take i t)) start,
      omega (arith, start.within, length-take-le i t),
    )

pub line_end_of : (t : Text) (i : ℕ) → IsSplit t i → IsSplit t (i + line_end (drop i t))
line_end_of t i s =
    IsSplit-drop t i s (line_end (drop i t))
      (subst (IsSplit (drop i t)) (omega arith) (line_end-IsSplit [] (drop i t) s.after))

module _ (s : EditorState) (v : IsEditor s) where
  pub move_line_start-IsEditor : Edits (move_line_start s)
  unfolding move_line_start
  move_line_start-IsEditor = (
    at s (line_start 0 0 (take s.cursor s.text)),
    ground (arith, slice_to-IsSplit s.text s.cursor v.cursor),
    record { text = v.text; cursor = (line_start_of s.text s.cursor v.cursor).0 },
  )

  pub move_line_end-IsEditor : Edits (move_line_end s)
  unfolding move_line_end
  move_line_end-IsEditor = (
    at s (s.cursor + line_end (drop s.cursor s.text)),
    ground (arith, slice_from-IsSplit s.text s.cursor v.cursor),
    record { text = v.text; cursor = line_end_of s.text s.cursor v.cursor },
  )

  -- What is removed up to the cursor.
  pub removed :
      (i : ℕ)
      → IsSplit s.text i
      → i ≤ s.cursor
      → (remove_range s.text i s.cursor ≡ ok (take i s.text ++ drop s.cursor s.text))
        × IsEditor (at (record s { text = take i s.text ++ drop s.cursor s.text }) i)
  removed i k le =
      let (e, split) = remove_range-IsSplit s.text i k s.cursor v.cursor le in
      (e, record { text = IsSplit-utf8 _ i split; cursor = split })

  pub delete_to_line_start-IsEditor : Edits (delete_to_line_start s)
  unfolding delete_to_line_start
  delete_to_line_start-IsEditor =
      let (start, le) = line_start_of s.text s.cursor v.cursor in
      let (e, kept) = removed (line_start 0 0 (take s.cursor s.text)) start le in
      (_, ground (arith, slice_to-IsSplit s.text s.cursor v.cursor, e), kept)

module _ (unicode : Unicode) (law : IsUnicode unicode) where
  -- The grapheme before an index.
  previous_of :
      (t : Text) (i : ℕ)
      → IsSplit t i
      → IsSplit t (last_index 0 i (unicode.graphemes (take i t)))
        × (last_index 0 i (unicode.graphemes (take i t)) ≤ i)
  previous_of t i s =
      let (e, parts) = law.graphemes_parts (take i t) s.before in
      let k =
        subst (λ (x : Text). IsSplit x (last_index 0 i (unicode.graphemes (take i t)))) e
          (last_index-IsSplit [] i (unicode.graphemes (take i t)) nil_utf8 parts (
            subst (λ (x : Text). IsSplit x i) (sym e)
              (subst (IsSplit (take i t)) (length-take i t s.within)
                (IsSplit-length (take i t) s.before)))) in
      (IsSplit-take t i s _ k, omega (arith, k.within, length-take-le i t))

  -- The end of the grapheme after an index.
  next_of :
      (t : Text) (i : ℕ)
      → IsSplit t i
      → (j : ℕ) × (next_grapheme unicode t i ≡ ok j) × (IsSplit t j × (i ≤ j))
  unfolding next_grapheme concat
  next_of t i s = after_of (unicode.graphemes (drop i t)) refl
    where
      after_of :
          (gs : List Text)
          → unicode.graphemes (drop i t) ≡ gs
          → (j : ℕ) × (next_grapheme unicode t i ≡ ok j) × (IsSplit t j × (i ≤ j))
      after_of [] e = (i, ground (arith, slice_from-IsSplit t i s, e), (s, omega arith))
      after_of (g ∷ gs) e =
          let (whole, parts) = law.graphemes_parts (drop i t) s.after in
          let all = subst AllUtf8 e parts in
          let split =
            subst (λ (x : Text). IsSplit x (length g)) (ap concat (sym e) ∙ whole)
              (IsSplit-append g (concat gs) all.0.1 (concat-utf8 gs all.1)) in
          (
            i + length g,
            ground (arith, slice_from-IsSplit t i s, e),
            (IsSplit-drop t i s (length g) split, omega arith),
          )

  module _ (s : EditorState) (v : IsEditor s) where
    pub move_left-IsEditor : Edits (move_left unicode s)
    unfolding move_left previous_grapheme
    move_left-IsEditor = (
      at s (last_index 0 s.cursor (unicode.graphemes (take s.cursor s.text))),
      ground (arith, slice_to-IsSplit s.text s.cursor v.cursor),
      record { text = v.text; cursor = (previous_of s.text s.cursor v.cursor).0 },
    )

    pub move_right-IsEditor : Edits (move_right unicode s)
    unfolding move_right
    move_right-IsEditor =
        let (j, e, (split, le)) = next_of s.text s.cursor v.cursor in
        (at s j, ground (arith, e), record { text = v.text; cursor = split })

    pub delete_backward-IsEditor : Edits (delete_backward unicode s)
    unfolding delete_backward previous_grapheme
    delete_backward-IsEditor =
        let (split, le) = previous_of s.text s.cursor v.cursor in
        let previous = last_index 0 s.cursor (unicode.graphemes (take s.cursor s.text)) in
        let (e, kept) = removed s v previous split le in
        elim (Bool-cases (previous != s.cursor)) [
          | inl moved ↦
              (_, ground (arith, slice_to-IsSplit s.text s.cursor v.cursor, e, moved), kept)
          | inr still ↦ (
            at s s.cursor,
            ground (arith, slice_to-IsSplit s.text s.cursor v.cursor, still),
            record { text = v.text; cursor = v.cursor },
          )
        ]

    pub delete_forward-IsEditor : Edits (delete_forward unicode s)
    unfolding delete_forward
    delete_forward-IsEditor =
        let (j, next, (split, le)) = next_of s.text s.cursor v.cursor in
        let (e, kept) = remove_range-IsSplit s.text s.cursor v.cursor j split le in
        elim (Bool-cases (j != s.cursor)) [
          | inl moved ↦ (
            at (record s { text = take s.cursor s.text ++ drop j s.text }) s.cursor,
            ground (arith, next, e, moved),
            record { text = IsSplit-utf8 _ s.cursor kept; cursor = kept },
          )
          | inr still ↦ (
            at s s.cursor,
            ground (arith, next, still),
            record { text = v.text; cursor = v.cursor },
          )
        ]
