-- ===== src/Client/Editor/Trim.antt =====
-- `trim_end_matches` in crates/client/src/editor.rs cuts between two characters.
use mathlib.Core.List.{append_assoc}
use tui_chat.Base.{
  ℕ, ◌≡◌, ◌≤◌, some, refl, sym, ap, ◌∙◌, inl, inr, true, ◌&&◌, List, [], ◌∷◌, ◌++◌, nat_eq,
  if◌then◌else◌, arith, Bool-cases, leb, ltb,
}
use tui_chat.Base.Text.{Text}
use tui_chat.Base.Utf8.{follow, utf8_rest, is_utf8}
use tui_chat.Base.Utf8.Split.{utf8-append, utf8-cancel_right}
use tui_chat.Client.Editor.Clean.{attach, chars, is_whitespace, trim_chars, trim_end}
use tui_chat.Client.Editor.Graphemes.{concat}
use tui_chat.Client.Editor.Loops.{nil_utf8}

concat-attach : (b : ℕ) (cs : List Text) → concat (attach b cs) ≡ b ∷ concat cs
unfolding concat attach
concat-attach b [] = refl
concat-attach b ([] ∷ cs) = refl
concat-attach b ((c ∷ bs) ∷ cs) = elim (Bool-cases (leb 128 c && ltb c 192)) [
  | inl e ↦ rw e refl
  | inr e ↦ rw e refl
]

concat-chars : (t : Text) → concat (chars t) ≡ t
unfolding concat chars
concat-chars [] = refl
concat-chars (b ∷ t) = concat-attach b (chars t) ∙ ap (◌∷◌ b) (concat-chars t)

-- Three bytes in the plane of the spaces.
spaces_first : (a : ℕ) → 225 ≤ a → a ≤ 227 → follow a ≡ some (2, 128, 191)
unfolding follow
spaces_first a h k = ground arith

three_utf8 :
    (a b c : ℕ)
    → (225 ≤ a) × (a ≤ 227)
    → (128 ≤ b) × (b ≤ 191)
    → (128 ≤ c) × (c ≤ 191)
    → is_utf8 (a ∷ b ∷ c ∷ []) ≡ true
unfolding is_utf8 utf8_rest
three_utf8 a b c h k l = ground (arith, spaces_first a h.0 h.1, k, l)

is_whitespace-utf8 : (c : Text) → is_whitespace c ≡ true → is_utf8 c ≡ true
unfolding is_whitespace is_utf8 utf8_rest follow
is_whitespace-utf8 [] h = refl
is_whitespace-utf8 (a ∷ []) h = ground (arith, h)
is_whitespace-utf8 (a ∷ b ∷ []) h = ground (arith, h)
is_whitespace-utf8 (a ∷ b ∷ c ∷ []) h =
    three_utf8 a b c (ground (arith, h)) (ground (arith, h)) (ground (arith, h))
is_whitespace-utf8 (a ∷ b ∷ c ∷ d ∷ rest) h = ground (arith, h)

-- What is cut off is UTF-8.
trim_chars-append :
    (cs : List Text) → (cut : Text) × (concat cs ≡ trim_chars cs ++ cut) × (is_utf8 cut ≡ true)
unfolding trim_chars concat
trim_chars-append [] = ([], refl, nil_utf8)
trim_chars-append (c ∷ cs) =
    let (cut, e, u) = trim_chars-append cs in kept_of (trim_chars cs) cut e u
  where
    kept_of :
        (kept cut : Text)
        → concat cs ≡ kept ++ cut
        → is_utf8 cut ≡ true
        → (rest : Text) × (c ++ concat cs
            ≡ (elim kept [ [] ↦ if is_whitespace c then [] else c | b ∷ bs ↦ c ++ (b ∷ bs) ])
              ++ rest)
          × (is_utf8 rest ≡ true)
    kept_of [] cut e u = elim (Bool-cases (is_whitespace c)) [
      | inl w ↦ rw w (c ++ cut, ap (◌++◌ c) e, utf8-append c cut (is_whitespace-utf8 c w) u)
      | inr w ↦ rw w (cut, ap (◌++◌ c) e, u)
    ]
    kept_of (b ∷ bs) cut e u = (cut, ap (◌++◌ c) e ∙ sym (append_assoc c (b ∷ bs) cut), u)

pub trim_end-append :
    (t : Text)
    → is_utf8 t ≡ true
    → (cut : Text) × (t ≡ trim_end t ++ cut)
      × ((is_utf8 (trim_end t) ≡ true) × (is_utf8 cut ≡ true))
unfolding trim_end
trim_end-append t h =
    let (cut, e, u) = trim_chars-append (chars t) in
    let whole = sym (concat-chars t) ∙ e in
    (cut, whole, (utf8-cancel_right (trim_end t) cut u (ap is_utf8 (sym whole) ∙ h), u))
