-- ===== src/Client/Editor/Lines.antt =====
-- The lines of a text in crates/client/src/editor.rs start and end at character boundaries.
use mathlib.Core.List.{append_assoc}
use native.Mathlib.Nat.{add-zero}
use tui_chat.Base.{
  ℕ, suc, ◌+◌, ◌-◌, ◌≡◌, ◌<◌, sym, ap, ◌∙◌, subst, inl, inr, true, [], ◌∷◌, ◌++◌, ◌==◌, nat_eq,
  ==_sound, length, if◌then◌else◌, arith, Bool-cases,
}
use tui_chat.Base.Text.{Text}
use tui_chat.Base.Utf8.{is_utf8}
use tui_chat.Base.Utf8.Split.{utf8-append, utf8-split, utf8-ascii}
use tui_chat.Crypto.Frame.{length-append}
use tui_chat.Client.Editor.{line_start, line_end}
use tui_chat.Client.Editor.Boundary.{IsSplit, IsSplit-append}
use tui_chat.Client.Editor.Loops.{nil_utf8, IsSplit-length}

module _ (P : Text → ℕ → Type 0) where
  advance_byte :
      (pre : Text) (b : ℕ) (rest : Text)
      → P ((pre ++ (b ∷ [])) ++ rest) (length (pre ++ (b ∷ [])))
      → P (pre ++ (b ∷ rest)) (suc (length pre))
  advance_byte pre b rest h =
      subst (P (pre ++ (b ∷ rest))) (omega (arith, length-append pre (b ∷ [])))
        (subst (λ (t : Text). P t (length (pre ++ (b ∷ [])))) (append_assoc pre (b ∷ []) rest) h)

-- A newline has a boundary on both sides.
newline-IsSplit :
    (pre : Text) (b : ℕ) (bs : Text)
    → (b == 10) ≡ true
    → is_utf8 (pre ++ (b ∷ bs)) ≡ true
    → IsSplit (pre ++ (b ∷ bs)) (length pre) × IsSplit (pre ++ (b ∷ bs)) (suc (length pre))
newline-IsSplit pre b bs e h =
    let lt : b < 128 = ground (arith, ==_sound b 10 e) in
    let (front, back) = utf8-split pre bs b lt h in
    (
      IsSplit-append pre (b ∷ bs) front back,
      advance_byte IsSplit pre b bs (
          IsSplit-append (pre ++ (b ∷ [])) bs
            (utf8-append pre (b ∷ []) front (utf8-ascii b [] lt ∙ nil_utf8))
            (sym (utf8-ascii b bs lt) ∙ back)),
    )

pub line_start-IsSplit :
    (pre : Text) (start : ℕ) (xs : Text)
    → is_utf8 (pre ++ xs) ≡ true
    → IsSplit (pre ++ xs) start
    → IsSplit (pre ++ xs) (line_start (length pre) start xs)
unfolding line_start
line_start-IsSplit pre start [] h s = s
line_start-IsSplit pre start (b ∷ bs) h s =
    let next = if b == 10 then suc (length pre) else start in
    let moved : IsSplit (pre ++ (b ∷ bs)) next = elim (Bool-cases (b == 10)) [
      | inl e ↦ rw e (newline-IsSplit pre b bs e h).1
      | inr n ↦ rw n s
    ] in
    advance_byte (λ t n. IsSplit t (line_start n next bs)) pre b bs
      (line_start-IsSplit (pre ++ (b ∷ [])) next bs (ap is_utf8 (append_assoc pre (b ∷ []) bs) ∙ h)
        (subst (λ (t : Text). IsSplit t next) (sym (append_assoc pre (b ∷ []) bs)) moved))

pub line_end-IsSplit :
    (pre xs : Text) → is_utf8 (pre ++ xs) ≡ true → IsSplit (pre ++ xs) (length pre + line_end xs)
unfolding line_end
line_end-IsSplit pre [] h =
    subst (IsSplit (pre ++ [])) (omega (arith, length-append pre [])) (IsSplit-length (pre ++ []) h)
line_end-IsSplit pre (b ∷ bs) h = elim (Bool-cases (b == 10)) [
  | inl e ↦ rw (e, add-zero (length pre)) (newline-IsSplit pre b bs e h).0
  | inr n ↦ rw n (
      subst (IsSplit (pre ++ (b ∷ bs))) (omega arith) (
        advance_byte (λ t n. IsSplit t (n + line_end bs)) pre b bs
          (line_end-IsSplit (pre ++ (b ∷ [])) bs (ap is_utf8 (append_assoc pre (b ∷ []) bs) ∙ h))))
]

-- The byte before the start of a line is a newline.
pub line_start_before :
    (pre : Text) (start : ℕ) (xs : Text)
    → is_utf8 (pre ++ xs) ≡ true
    → IsSplit (pre ++ xs) (start - 1)
    → IsSplit (pre ++ xs) (line_start (length pre) start xs - 1)
unfolding line_start
line_start_before pre start [] h s = s
line_start_before pre start (b ∷ bs) h s =
    let next = if b == 10 then suc (length pre) else start in
    let moved : IsSplit (pre ++ (b ∷ bs)) (next - 1) = elim (Bool-cases (b == 10)) [
      | inl e ↦
          rw e (subst (IsSplit (pre ++ (b ∷ bs))) (omega arith) (newline-IsSplit pre b bs e h).0)
      | inr n ↦ rw n s
    ] in
    advance_byte (λ t n. IsSplit t (line_start n next bs - 1)) pre b bs
      (line_start_before (pre ++ (b ∷ [])) next bs (ap is_utf8 (append_assoc pre (b ∷ []) bs) ∙ h)
        (subst (λ (t : Text). IsSplit t (next - 1)) (sym (append_assoc pre (b ∷ []) bs)) moved))

-- And so is the byte at its end.
pub line_end_after :
    (pre xs : Text)
    → is_utf8 (pre ++ xs) ≡ true
    → line_end xs < length xs
    → IsSplit (pre ++ xs) (length pre + line_end xs + 1)
unfolding line_end
line_end_after pre [] h lt = absurd (omega arith)
line_end_after pre (b ∷ bs) h lt = elim (Bool-cases (b == 10)) [
  | inl e ↦ rw e (subst (IsSplit (pre ++ (b ∷ bs))) (omega arith) (newline-IsSplit pre b bs e h).1)
  | inr n ↦ rw n (
      subst (IsSplit (pre ++ (b ∷ bs))) (omega arith) (
        advance_byte (λ t n. IsSplit t (n + line_end bs + 1)) pre b bs
          (line_end_after (pre ++ (b ∷ [])) bs (ap is_utf8 (append_assoc pre (b ∷ []) bs) ∙ h)
            (ground (arith, lt, n)))))
]
