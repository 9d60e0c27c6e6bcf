-- ===== src/Client/Editor/Control.antt =====
-- No control character but the newline is left of what crates/client/src/editor.rs inserts.
use tui_chat.Base.{
  zero, suc, take, ℕ, ◌≡◌, ◌≤◌, ◌<◌, refl, inl, inr, ltb, Bool, false, not, ◌&&◌, ◌||◌, [], ◌∷◌,
  ◌++◌, ◌==◌, nat_eq, arith, Bool-cases,
}
use mathlib.Core.Logic.{◌⊎◌}
use tui_chat.Base.Text.{Text}
use tui_chat.Client.Editor.Clean.{clean_byte, clean, is_c1, replacement}

-- Whether a control character other than a newline stands in a text.
unfoldable pub has_control : Text → Bool
has_control [] = false
has_control (b ∷ []) = (ltb b 32 && not (b == 10)) || b == 127
has_control (b ∷ c ∷ bs) =
    let rest = has_control (c ∷ bs) in
    ((ltb b 32 && not (b == 10)) || b == 127) || (is_c1 b c || rest)

abbrev begins_c1 : ℕ → Text → Bool
begins_c1 b [] = false
begins_c1 b (c ∷ bs) = is_c1 b c

abbrev is_control_byte : ℕ → Bool
is_control_byte b = (ltb b 32 && not (b == 10)) || b == 127

has_control-cons :
    (b : ℕ) (bs : Text)
    → is_control_byte b ≡ false
    → begins_c1 b bs ≡ false
    → has_control bs ≡ false
    → has_control (b ∷ bs) ≡ false
unfolding has_control
has_control-cons b [] h k r = ground (arith, h)
has_control-cons b (c ∷ bs) h k r = ground (arith, h, k, r)

begins_c1-clean_byte :
    (b c : ℕ) (rest : Text) → is_c1 b c ≡ false → begins_c1 b (clean_byte c rest) ≡ false
unfolding clean_byte
begins_c1-clean_byte b c rest h = ground (arith, h)

begins_c1-clean : (b c : ℕ) (bs : Text) → is_c1 b c ≡ false → begins_c1 b (clean (c ∷ bs)) ≡ false
unfolding clean
begins_c1-clean b c [] h = begins_c1-clean_byte b c [] h
begins_c1-clean b c (d ∷ bs) h = elim (Bool-cases (is_c1 c d)) [
  | inl e ↦ rw e (ground arith)
  | inr n ↦ rw n (begins_c1-clean_byte b c (clean (d ∷ bs)) h)
]

has_control-plain :
    (b : ℕ) (bs : Text)
    → (b ≡ 10) ⊎ ((32 ≤ b) × (b < 127))
    → has_control bs ≡ false
    → has_control (b ∷ bs) ≡ false
unfolding has_control
has_control-plain b [] h r = ground (arith, h)
has_control-plain b (c ∷ bs) h r = ground (arith, h, r)

spaced : (◌≡◌ {A = ℕ} 32 10) ⊎ ((32 ≤ 32) × (32 < 127))
spaced = inr (omega arith, omega arith)

has_control-replacement :
    (bs : Text) → has_control bs ≡ false → has_control (replacement ++ bs) ≡ false
unfolding has_control nat_eq
has_control-replacement [] h = refl
has_control-replacement (b ∷ bs) h = ground (arith, h)

has_control-clean_byte :
    (b : ℕ) (bs : Text)
    → begins_c1 b bs ≡ false
    → has_control bs ≡ false
    → has_control (clean_byte b bs) ≡ false
unfolding clean_byte
has_control-clean_byte b bs k r = elim (Bool-cases (b == 10)) [
  | inl e ↦ rw e (has_control-plain 10 bs (inl refl) r)
  | inr n ↦ rw n (elim (Bool-cases (b == 9)) [
    | inl e ↦ rw e (
        has_control-plain 32 _ spaced (
          has_control-plain 32 _ spaced
            (has_control-plain 32 _ spaced (has_control-plain 32 bs spaced r))))
    | inr n' ↦ rw n' (elim (Bool-cases (ltb b 32 || b == 127)) [
      | inl e ↦ rw e (has_control-replacement bs r)
      | inr k' ↦ rw k' (has_control-cons b bs (ground (arith, n, k')) k r)
    ])
  ])
]

pub has_control-clean : (bs : Text) → has_control (clean bs) ≡ false
unfolding clean has_control
has_control-clean [] = refl
has_control-clean (b ∷ []) = has_control-clean_byte b [] refl refl
has_control-clean (b ∷ c ∷ bs) = elim (Bool-cases (is_c1 b c)) [
  | inl e ↦ rw e (has_control-replacement (clean bs) (has_control-clean bs))
  | inr n ↦ rw n (
      has_control-clean_byte b (clean (c ∷ bs)) (begins_c1-clean b c bs n)
        (has_control-clean (c ∷ bs)))
]

-- What is cut off at the end takes no part in it.
pub has_control-take : (n : ℕ) (t : Text) → has_control t ≡ false → has_control (take n t) ≡ false
unfolding has_control
has_control-take zero t h = refl
has_control-take (suc n) [] h = refl
has_control-take (suc zero) (b ∷ []) h = h
has_control-take (suc (suc n)) (b ∷ []) h = h
has_control-take (suc zero) (b ∷ c ∷ bs) h = ground (arith, h)
has_control-take (suc (suc n)) (b ∷ c ∷ bs) h = ground (arith, h, has_control-take (suc n) (c ∷ bs))
