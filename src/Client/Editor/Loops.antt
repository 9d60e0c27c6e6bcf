-- ===== src/Client/Editor/Loops.antt =====
-- The indices that the loops of crates/client/src/editor.rs come to are character boundaries.
use mathlib.Core.List.{append_assoc, append-nil}
use tui_chat.Base.{
  ℕ, ◌+◌, ◌≡◌, ◌<◌, refl, sym, subst, inl, inr, ltb, leb, Bool, true, false, ◌||◌, List, [], ◌∷◌,
  ◌++◌, ◌==◌, nat_eq, length, if◌then◌else◌, arith, All, Bool-cases,
}
use tui_chat.Base.Text.{Text}
use tui_chat.Base.Utf8.{is_utf8}
use tui_chat.Base.Utf8.Split.{utf8-append}
use tui_chat.Crypto.Frame.{length-append}
use tui_chat.Client.Editor.Graphemes.{
  concat, last_index, fitting, last_word, display_column, visual_position,
}
use tui_chat.Client.Editor.Boundary.{IsSplit, IsSplit-append}

-- What both branches satisfy.
pub pick {ℓ κ} :
    {A : Type ℓ} (P : A → Type κ) (b : Bool) {x y : A} → P x → P y → P (if b then x else y)
pick P true p q = p
pick P false p q = q

pub nil_utf8 : is_utf8 [] ≡ true
unfolding is_utf8
nil_utf8 = refl

pub IsSplit-zero : (t : Text) → is_utf8 t ≡ true → IsSplit t 0
IsSplit-zero t h = record { within = omega arith; before = nil_utf8; after = h }

pub IsSplit-length : (t : Text) → is_utf8 t ≡ true → IsSplit t (length t)
IsSplit-length t h =
    subst (λ (x : Text). IsSplit x (length t)) (append-nil t) (IsSplit-append t [] h nil_utf8)

-- A list of parts that are UTF-8.
abbrev pub AllUtf8 : List Text → Type 0
AllUtf8 = All (λ g. (0 < length g) × (is_utf8 g ≡ true))

pub concat-utf8 : (gs : List Text) → AllUtf8 gs → is_utf8 (concat gs) ≡ true
unfolding concat
concat-utf8 [] h = nil_utf8
concat-utf8 (g ∷ gs) h = utf8-append g (concat gs) h.0.1 (concat-utf8 gs h.1)

-- The next part moves from what is ahead to what is behind.
module _ (P : Text → ℕ → Type 0) where
  pub advance :
      (pre g rest : Text)
      → P ((pre ++ g) ++ rest) (length (pre ++ g))
      → P (pre ++ (g ++ rest)) (length pre + length g)
  advance pre g rest h =
      subst (P (pre ++ (g ++ rest))) (length-append pre g)
        (subst (λ (t : Text). P t (length (pre ++ g))) (append_assoc pre g rest) h)

pub last_index-IsSplit :
    (pre : Text) (other : ℕ) (gs : List Text)
    → is_utf8 pre ≡ true
    → AllUtf8 gs
    → IsSplit (pre ++ concat gs) other
    → IsSplit (pre ++ concat gs) (last_index (length pre) other gs)
unfolding last_index concat
last_index-IsSplit pre other [] h a s = s
last_index-IsSplit pre other (g ∷ gs) h a s =
    advance (λ t n. IsSplit t (last_index n (length pre) gs)) pre g (concat gs)
      (last_index-IsSplit (pre ++ g) (length pre) gs (utf8-append pre g h a.0.1) a.1 (
        subst (λ (t : Text). IsSplit t (length pre)) (sym (append_assoc pre g (concat gs)))
          (IsSplit-append pre (g ++ concat gs) h (concat-utf8 (g ∷ gs) a))))

pub fitting-IsSplit :
    (pre : Text) (remaining : ℕ) (gs : List Text)
    → is_utf8 pre ≡ true
    → AllUtf8 gs
    → IsSplit (pre ++ concat gs) (fitting (length pre) remaining gs)
unfolding fitting concat
fitting-IsSplit pre remaining [] h a = IsSplit-append pre [] h nil_utf8
fitting-IsSplit pre remaining (g ∷ gs) h a =
    elim (Bool-cases (leb (length pre + length g) remaining)) [
      | inl fits ↦ rw fits (
          advance (λ t n. IsSplit t (fitting n remaining gs)) pre g (concat gs)
            (fitting-IsSplit (pre ++ g) remaining gs (utf8-append pre g h a.0.1) a.1))
      | inr over ↦ rw over (IsSplit-append pre (g ++ concat gs) h (concat-utf8 (g ∷ gs) a))
    ]

pub last_word-IsSplit :
    (blank : Text → Bool) (pre : Text) (found : ℕ) (ws : List Text)
    → is_utf8 pre ≡ true
    → AllUtf8 ws
    → IsSplit (pre ++ concat ws) found
    → IsSplit (pre ++ concat ws) (last_word blank (length pre) found ws)
unfolding last_word concat
last_word-IsSplit blank pre found [] h a s = s
last_word-IsSplit blank pre found (w ∷ ws) h a s =
    advance (λ t n. IsSplit t (last_word blank n (if blank w then found else length pre) ws)) pre w
      (concat ws)
      (last_word-IsSplit blank (pre ++ w) (if blank w then found else length pre) ws
        (utf8-append pre w h a.0.1) a.1
        (subst (λ (t : Text). IsSplit t (if blank w then found else length pre))
          (sym (append_assoc pre w (concat ws)))
          (elim (Bool-cases (blank w)) [
            | inl b ↦ rw b s
            | inr n ↦ rw n (IsSplit-append pre (w ++ concat ws) h (concat-utf8 (w ∷ ws) a))
          ])))

-- The index, counted from the start of the line.
pub display_column-IsSplit :
    (width_of : Text → ℕ) (column start width : ℕ) (pre : Text) (gs : List Text)
    → is_utf8 pre ≡ true
    → AllUtf8 gs
    → (k : ℕ) × (display_column width_of column
          (start + length (pre ++ concat gs))
          (start + length pre)
          width
          gs
        ≡ start + k)
      × IsSplit (pre ++ concat gs) k
unfolding display_column concat
display_column-IsSplit width_of column start width pre [] h a =
    (length (pre ++ []), refl, IsSplit-length (pre ++ []) (utf8-append pre [] h nil_utf8))
display_column-IsSplit width_of column start width pre (g ∷ gs) h a =
    let end = start + length (pre ++ (g ++ concat gs)) in
    let (k, e, s) =
      subst
        (λ (n : ℕ).
          (k : ℕ) × (display_column width_of column end n (width + width_of g) gs ≡ start + k)
          × IsSplit (pre ++ (g ++ concat gs)) k)
        (omega arith)
        (advance
          (λ t n.
            (k : ℕ) × (display_column width_of column (start + length t) (start + n)
                (width + width_of g) gs
              ≡ start + k)
            × IsSplit t k)
          pre g (concat gs)
          (display_column-IsSplit width_of column start (width + width_of g) (pre ++ g) gs
            (utf8-append pre g h a.0.1) a.1)) in
    pick (λ r. (k : ℕ) × (r ≡ start + k) × IsSplit (pre ++ (g ++ concat gs)) k)
      (ltb column (width + width_of g))
      (length pre, refl, IsSplit-append pre (g ++ concat gs) h (concat-utf8 (g ∷ gs) a))
      (pick (λ r. (k : ℕ) × (r ≡ start + k) × IsSplit (pre ++ (g ++ concat gs)) k)
        (width + width_of g == column)
        (
          length pre + length g,
          omega arith,
          advance IsSplit pre g (concat gs) (
              IsSplit-append (pre ++ g) (concat gs) (utf8-append pre g h a.0.1)
                (concat-utf8 gs a.1)),
        )
        (k, e, s))

pub visual_position-IsSplit :
    (width_of : Text → ℕ) (end target_row target_column wrap_width row column last_cursor : ℕ)
    (pre : Text) (gs : List Text)
    → is_utf8 pre ≡ true
    → AllUtf8 gs
    → IsSplit (pre ++ concat gs) end
    → IsSplit (pre ++ concat gs) last_cursor
    → IsSplit (pre ++ concat gs) (
        visual_position width_of end target_row target_column wrap_width row column last_cursor
          (length pre)
          gs)
unfolding visual_position concat
visual_position-IsSplit width_of end tr tc wrap row column last_cursor pre [] h a e l =
    pick (IsSplit (pre ++ [])) (ltb row tr || leb column tc) e l
visual_position-IsSplit width_of end tr tc wrap row column last_cursor pre (g ∷ gs) h a e l =
    let here = IsSplit-append pre (g ++ concat gs) h (concat-utf8 (g ∷ gs) a) in
    let front = utf8-append pre g h a.0.1 in
    let end' = subst (λ (t : Text). IsSplit t end) (sym (append_assoc pre g (concat gs))) e in
    let next = IsSplit-append (pre ++ g) (concat gs) front (concat-utf8 gs a.1) in
    let loop = λ (r c : ℕ).
      advance (λ t n. IsSplit t (visual_position width_of end tr tc wrap r c n n gs)) pre g
        (concat gs)
        (visual_position-IsSplit width_of end tr tc wrap r c (length (pre ++ g)) (pre ++ g) gs front
          a.1 end' next) in
    pick (IsSplit (pre ++ (g ++ concat gs))) _
      (pick (IsSplit (pre ++ (g ++ concat gs))) _ here (loop _ _))
      (pick (IsSplit (pre ++ (g ++ concat gs))) _ here
        (pick (IsSplit (pre ++ (g ++ concat gs))) _ here (loop _ _)))
