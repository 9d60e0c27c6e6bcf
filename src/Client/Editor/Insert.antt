-- ===== src/Client/Editor/Insert.antt =====
-- `insert` in crates/client/src/editor.rs.
use tui_chat.Client.Editor.Loops.{nil_utf8, pick, fitting-IsSplit}
use tui_chat.Crypto.Frame.{length-append}
use tui_chat.Client.Editor.Boundary.{insert_str-IsSplit}
use tui_chat.Base.{
  sym, not, ◌&&◌, list_eq, ==_refl, ==_sound, ℕ, ◌+◌, ◌-◌, ◌≡◌, ◌≤◌, ◌<◌, refl, ap, subst, inl, inr,
  leb, Bool, true, false, List, [], ◌∷◌, ◌++◌, none, ok, ◌==◌, nat_eq, length, take, drop, arith,
  Bool-cases,
}
use tui_chat.Base.Slices.{take-append-drop, take_all}
use tui_chat.Base.Text.{Text}
use tui_chat.Base.Utf8.{is_utf8}
use tui_chat.Client.Editor.{EditorState, accept, insert}
use tui_chat.Client.Editor.Clean.{normalize}
use tui_chat.Client.Editor.Graphemes.{Unicode, IsUnicode, fitting}
use tui_chat.Client.Editor.Normalize.{normalize-utf8, has_control-normalize}
use tui_chat.Client.Editor.Control.{has_control, has_control-take}
use tui_chat.Client.Editor.Moves.{IsEditor, length-take-le, IsSplit-utf8}

fitting_le :
    (end remaining : ℕ) (gs : List Text) → end ≤ remaining → fitting end remaining gs ≤ remaining
unfolding fitting
fitting_le end remaining [] h = h
fitting_le end remaining (g ∷ gs) h = elim (Bool-cases (leb (end + length g) remaining)) [
  | inl fits ↦ rw fits (fitting_le (end + length g) remaining gs (ground (arith, fits)))
  | inr over ↦ rw over h
]

length_insert :
    (t : Text) (i : ℕ) (value : Text)
    → i ≤ length t
    → length (take i t ++ (value ++ drop i t)) ≡ length t + length value
length_insert t i value h = omega (
  arith,
  length-append (take i t) (value ++ drop i t),
  length-append value (drop i t),
  length-append (take i t) (drop i t),
  ap length (take-append-drop i t),
)

-- What `insert` makes of `value`: at the cursor stands a start of the normalized value, which holds
-- no control character but the newline and is UTF-8; it is all of the value if the flag is set.
pub record IsSpliced (value : Text) (s s' : EditorState) (flag : Bool) : Type 0 where
  pub spliced : Text
  pub text_same : s'.text ≡ take s.cursor s.text ++ (spliced ++ drop s.cursor s.text)
  pub start : (k : ℕ) × (spliced ≡ take k (normalize value))
  pub harmless : has_control spliced ≡ false
  pub valid : is_utf8 spliced ≡ true
  pub complete : (flag && not (spliced == normalize value)) ≡ false

module _ (unicode : Unicode) (law : IsUnicode unicode) where
  accept-start : (remaining : ℕ) (t : Text) → (k : ℕ) × (accept unicode remaining t ≡ take k t)
  unfolding accept
  accept-start remaining t = elim (Bool-cases (leb (length t) remaining)) [
    | inl fits ↦ (length t, rw fits (sym (take_all (length t) t (omega arith))))
    | inr over ↦ (fitting 0 remaining (unicode.graphemes t), rw over refl)
  ]

  -- If what is accepted is as long as the text, it is the text.
  accept_complete :
      (remaining : ℕ) (t : Text)
      → ((length (accept unicode remaining t) == length t) && not (accept unicode remaining t == t))
        ≡ false
  accept_complete remaining t =
      let (k, e) = accept-start remaining t in
      elim (Bool-cases (length (take k t) == length t)) [
        | inl same ↦
            let long : length t ≤ k =
              omega (arith, ==_sound (length (take k t)) (length t) same, length-take-le k t) in
            rw (e, take_all k t long, ==_refl t) (ground arith)
        | inr differ ↦ rw (e, differ) refl
      ]

  accept-utf8 :
      (remaining : ℕ) (t : Text) → is_utf8 t ≡ true → is_utf8 (accept unicode remaining t) ≡ true
  unfolding accept
  accept-utf8 remaining t h =
      pick (λ x. is_utf8 x ≡ true) (leb (length t) remaining) h
        (let (e, parts) = law.graphemes_parts t h in
          subst (λ (x : Text). is_utf8 (take (fitting 0 remaining (unicode.graphemes t)) x) ≡ true)
            e (fitting-IsSplit [] remaining (unicode.graphemes t) nil_utf8 parts).before)

  -- What is accepted fits.
  accept_le :
      (remaining : ℕ) (t : Text)
      → is_utf8 t ≡ true
      → length (accept unicode remaining t) ≤ remaining
  unfolding accept
  accept_le remaining t h = elim (Bool-cases (leb (length t) remaining)) [
    | inl e ↦ ground (arith, e)
    | inr e ↦ rw e (
        omega (
          arith,
          length-take-le (fitting 0 remaining (unicode.graphemes t)) t,
          fitting_le 0 remaining (unicode.graphemes t) (omega arith),
        ))
  ]

  module _ (s : EditorState) (v : IsEditor s) where
    nothing-IsSpliced :
        (value : Text) (flag : Bool)
        → (flag && not ([] == normalize value)) ≡ false
        → IsSpliced value s s flag
    unfolding has_control
    nothing-IsSpliced value flag honest = record {
      spliced = [];
      text_same = sym (take-append-drop s.cursor s.text);
      start = (0, refl);
      harmless = refl;
      valid = nil_utf8;
      complete = honest;
    }

    -- Where the graphemes of a text are its parts: inserting UTF-8 into a UTF-8 text within the
    -- bound, at a character boundary, does not panic, whatever has to be cut off; the text stays
    -- within the bound and UTF-8, and the cursor at a character boundary.
    pub insert-IsEditor :
        (value : Text) (max_bytes : ℕ)
        → is_utf8 value ≡ true
        → length s.text ≤ max_bytes
        → (s' : EditorState) × (flag : Bool) × (insert unicode value max_bytes s ≡ ok (s', flag))
          × IsEditor s'
          × (length s'.text ≤ max_bytes)
    unfolding insert
    insert-IsEditor [] max_bytes h le = (s, true, refl, v, le)
    insert-IsEditor (b ∷ bs) max_bytes h le = elim (Bool-cases (leb max_bytes (length s.text))) [
      | inl full ↦ (s, false, ground (arith, full), v, le)
      | inr room ↦
          let fits = accept unicode (max_bytes - length s.text) (normalize (b ∷ bs)) in
          let u : is_utf8 fits ≡ true =
            accept-utf8 (max_bytes - length s.text) (normalize (b ∷ bs))
              (normalize-utf8 (b ∷ bs) h) in
          let below : length s.text < max_bytes = ground (arith, room) in
          let bound : length fits ≤ max_bytes - length s.text =
            accept_le (max_bytes - length s.text) (normalize (b ∷ bs))
              (normalize-utf8 (b ∷ bs) h) in
          let (e, split) = insert_str-IsSplit s.text s.cursor v.cursor fits u in
          (
            record {
              text = take s.cursor s.text ++ (fits ++ drop s.cursor s.text);
              cursor = s.cursor + length fits;
              preferred_column = none;
            },
            length fits == length (normalize (b ∷ bs)),
            ground (arith, e, room),
            record { text = IsSplit-utf8 _ _ split; cursor = split },
            omega (arith, bound, length_insert s.text s.cursor fits v.cursor.within, below),
          )
    ]

    -- Where the graphemes of a text are its parts: whatever UTF-8 is typed or pasted into a UTF-8
    -- text at a character boundary, with escape sequences or not, what `insert` puts in at the cursor
    -- is a start of the normalized value, holds no control character but the newline, and is UTF-8.
    -- It is all of the normalized value where `insert` answers that it is.
    pub insert_safe :
        (value : Text) (max_bytes : ℕ)
        → is_utf8 value ≡ true
        → (s' : EditorState) × (flag : Bool) × (insert unicode value max_bytes s ≡ ok (s', flag))
          × IsSpliced value s s' flag
    unfolding insert list_eq normalize
    insert_safe [] max_bytes h = (s, true, refl, nothing-IsSpliced [] true refl)
    insert_safe (b ∷ bs) max_bytes h = elim (Bool-cases (leb max_bytes (length s.text))) [
      | inl full ↦ (s, false, ground (arith, full), nothing-IsSpliced (b ∷ bs) false refl)
      | inr room ↦
          let remaining = max_bytes - length s.text in
          let normalized = normalize (b ∷ bs) in
          let fits = accept unicode remaining normalized in
          let u : is_utf8 fits ≡ true =
            accept-utf8 remaining normalized (normalize-utf8 (b ∷ bs) h) in
          let (e, split) = insert_str-IsSplit s.text s.cursor v.cursor fits u in
          (
            record {
              text = take s.cursor s.text ++ (fits ++ drop s.cursor s.text);
              cursor = s.cursor + length fits;
              preferred_column = none;
            },
            length fits == length normalized,
            ground (arith, e, room),
            record {
              spliced = fits;
              text_same = refl;
              start = accept-start remaining normalized;
              harmless =
                  let (k, cut) = accept-start remaining normalized in
                  rw cut (has_control-take k normalized (has_control-normalize (b ∷ bs)));
              valid = u;
              complete = accept_complete remaining normalized;
            },
          )
    ]
