-- ===== src/Base/Utf8/Split.antt =====
-- Where UTF-8 text may be cut and joined.
use Prim.Native.Nat.{ℕ, zero, suc, ◌≤◌, ◌<◌}
use mathlib.Core.Path.{◌≡◌, refl, sym, ap, ◌∙◌}
use mathlib.Core.Logic.{◌⊎◌, inl, inr}
use mathlib.Core.Bool.{true}
use mathlib.Core.Option.{some}
use mathlib.Core.List.{[], ◌∷◌, ◌++◌, append-nil}
use native.Mathlib.Omega.{arith}
use tui_chat.Base.Tests.{Option-cases}
use tui_chat.Base.Text.{Text}
use tui_chat.Base.Utf8.{follow, utf8_rest, is_utf8}

abbrev pub IsContinuation : ℕ → ℕ → Type 0
IsContinuation lo hi = (128 ≤ lo) × (hi ≤ 191)

pub follow_bounds : (b n lo hi : ℕ) → follow b ≡ some (n, lo, hi) → IsContinuation lo hi
unfolding follow
follow_bounds b n lo hi h = ground (arith, h)

utf8_rest-append :
    (k lo hi : ℕ) (a b : Text)
    → utf8_rest k lo hi a ≡ true
    → is_utf8 b ≡ true
    → utf8_rest k lo hi (a ++ b) ≡ true
unfolding utf8_rest is_utf8
utf8_rest-append zero lo hi [] [] h v = refl
utf8_rest-append zero lo hi [] (c ∷ b) h v = v
utf8_rest-append (suc k) lo hi [] b h v = cc
utf8_rest-append zero lo hi (x ∷ a) b h v = elim (Option-cases (follow x)) [
  | inl bad ↦ ground (arith, h, bad)
  | inr ((n, lo', hi'), f) ↦ ground (arith, h, f, utf8_rest-append n lo' hi' a b)
]
utf8_rest-append (suc k) lo hi (x ∷ a) b h v = ground (arith, h, utf8_rest-append k 128 191 a b)

pub utf8-append : (a b : Text) → is_utf8 a ≡ true → is_utf8 b ≡ true → is_utf8 (a ++ b) ≡ true
unfolding is_utf8
utf8-append a b h v = utf8_rest-append 0 128 191 a b h v

utf8_rest-cancel :
    (k lo hi : ℕ) (a b : Text)
    → utf8_rest k lo hi a ≡ true
    → utf8_rest k lo hi (a ++ b) ≡ true
    → is_utf8 b ≡ true
unfolding utf8_rest is_utf8
utf8_rest-cancel zero lo hi [] [] h v = refl
utf8_rest-cancel zero lo hi [] (c ∷ b) h v = v
utf8_rest-cancel (suc k) lo hi [] b h v = ground (arith, h)
utf8_rest-cancel zero lo hi (x ∷ a) b h v = elim (Option-cases (follow x)) [
  | inl bad ↦ ground (arith, h, bad)
  | inr ((n, lo', hi'), f) ↦ ground (arith, h, v, f, utf8_rest-cancel n lo' hi' a b)
]
utf8_rest-cancel (suc k) lo hi (x ∷ a) b h v = ground (arith, h, v, utf8_rest-cancel k 128 191 a b)

-- A byte that is no continuation can only stand between two characters.
utf8_rest-split :
    (k lo hi : ℕ) (a b : Text) (c : ℕ)
    → IsContinuation lo hi
    → (c < 128) ⊎ (192 ≤ c)
    → utf8_rest k lo hi (a ++ (c ∷ b)) ≡ true
    → (utf8_rest k lo hi a ≡ true) × (is_utf8 (c ∷ b) ≡ true)
unfolding utf8_rest is_utf8
utf8_rest-split zero lo hi [] b c w lt h = (refl, h)
utf8_rest-split (suc k) lo hi [] b c w lt h = ground (arith, h)
utf8_rest-split zero lo hi (x ∷ a) b c w lt h = elim (Option-cases (follow x)) [
  | inl bad ↦ ground (arith, h, bad)
  | inr ((n, lo', hi'), f) ↦
      ground (arith, h, f, utf8_rest-split n lo' hi' a b c (follow_bounds x n lo' hi' f) lt)
]
utf8_rest-split (suc k) lo hi (x ∷ a) b c w lt h =
    ground (arith, h, utf8_rest-split k 128 191 a b c (omega arith, omega arith) lt)

pub utf8-split :
    (a b : Text) (c : ℕ)
    → c < 128
    → is_utf8 (a ++ (c ∷ b)) ≡ true
    → (is_utf8 a ≡ true) × (is_utf8 (c ∷ b) ≡ true)
unfolding is_utf8
utf8-split a b c lt h = utf8_rest-split 0 128 191 a b c (omega arith, omega arith) (inl lt) h

pub utf8-ascii : (c : ℕ) (b : Text) → c < 128 → is_utf8 (c ∷ b) ≡ is_utf8 b
unfolding is_utf8 utf8_rest follow
utf8-ascii c [] lt = ground arith
utf8-ascii c (x ∷ b) lt = ground arith

-- A character starts where the rest of the text is UTF-8.
pub first_of_utf8 : (b : ℕ) (bs : Text) → is_utf8 (b ∷ bs) ≡ true → (b < 128) ⊎ (192 ≤ b)
unfolding is_utf8 utf8_rest follow
first_of_utf8 b bs h = ground (arith, h)

pub utf8-cancel_left : (a b : Text) → is_utf8 a ≡ true → is_utf8 (a ++ b) ≡ true → is_utf8 b ≡ true
unfolding is_utf8
utf8-cancel_left a b h v = utf8_rest-cancel 0 128 191 a b h v

pub utf8-cancel_right : (a b : Text) → is_utf8 b ≡ true → is_utf8 (a ++ b) ≡ true → is_utf8 a ≡ true
unfolding is_utf8
utf8-cancel_right a [] h v = ap is_utf8 (sym (append-nil a)) ∙ v
utf8-cancel_right a (c ∷ b) h v =
    (utf8_rest-split 0 128 191 a b c (omega arith, omega arith) (first_of_utf8 c b h) v).0
