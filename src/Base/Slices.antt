-- ===== src/Base/Slices.antt =====
-- Pages of a list whose keys rise: what stands behind the last row of a page is the rest.
use Prim.Native.Nat.{ℕ, zero, suc, ◌≤◌, ◌<◌, ◌-◌}
use mathlib.Core.Path.{◌≡◌, refl, ap, subst}
use mathlib.Core.Option.{some, some-injective}
use mathlib.Core.List.{List, [], ◌∷◌, ◌++◌}
use native.Mathlib.Omega.{arith}
use tui_chat.Base.Tests.{ltb}
use tui_chat.Base.Lists.{length, select, take, drop, last}
use tui_chat.Base.Order.{Increasing, Increasing-le}

module _ {ℓ} {A : Type ℓ} where
  pub take-append-drop : (n : ℕ) (xs : List A) → take n xs ++ drop n xs ≡ xs
  take-append-drop zero xs = refl
  take-append-drop (suc n) [] = refl
  take-append-drop (suc n) (x ∷ xs) = ap (◌∷◌ x) (take-append-drop n xs)

  pub take-take-suc : (n : ℕ) (xs : List A) → take n (take (suc n) xs) ≡ take n xs
  take-take-suc zero xs = refl
  take-take-suc (suc n) [] = refl
  take-take-suc (suc n) (x ∷ xs) = ap (◌∷◌ x) (take-take-suc n xs)

  pub take_all : (n : ℕ) (xs : List A) → length xs ≤ n → take n xs ≡ xs
  take_all zero [] h = refl
  take_all zero (x ∷ xs) h = absurd (omega arith)
  take_all (suc n) [] h = refl
  take_all (suc n) (x ∷ xs) h = ap (◌∷◌ x) (take_all n xs (omega arith))

  -- One row more than a page is there exactly when the list is longer than the page.
  pub length-take-suc : (n : ℕ) (xs : List A) → ltb n (length (take (suc n) xs)) ≡ ltb n (length xs)
  length-take-suc zero [] = refl
  length-take-suc zero (x ∷ xs) = ground arith
  length-take-suc (suc n) [] = refl
  length-take-suc (suc n) (x ∷ xs) = ground (arith, length-take-suc n xs)

  pub length-drop : (n : ℕ) (xs : List A) → length (drop n xs) ≡ length xs - n
  length-drop zero xs = omega arith
  length-drop (suc n) [] = omega arith
  length-drop (suc n) (x ∷ xs) = omega (arith, length-drop n xs)

  -- A page that is not empty has a last row.
  pub last-take :
      (n : ℕ) (xs : List A) → n < length xs → (x : A) × (last (take (suc n) xs) ≡ some x)
  last-take n [] h = absurd (omega arith)
  last-take zero (x ∷ xs) h = (x, refl)
  last-take (suc n) (x ∷ []) h = (x, refl)
  last-take (suc n) (x ∷ y ∷ xs) h = last-take n (y ∷ xs) (omega arith)

  pub length_pos_of_last : (n : ℕ) (xs : List A) (z : A) → last (take n xs) ≡ some z → 0 < length xs
  length_pos_of_last zero xs z e = cc
  length_pos_of_last (suc n) [] z e = cc
  length_pos_of_last (suc n) (x ∷ xs) z e = omega arith

module _ {ℓ} {A : Type ℓ} (key : A → ℕ) where
  select_above :
      (c lo hi : ℕ) (xs : List A)
      → Increasing key lo xs hi
      → c ≤ lo
      → select (λ s. ltb c (key s)) xs ≡ xs
  unfolding select
  select_above c lo hi [] h le = refl
  select_above c lo hi (x ∷ xs) h le = ground (arith, select_above c (key x) hi xs h.1)

  pub last-bounds :
      (n lo hi : ℕ) (xs : List A) (z : A)
      → Increasing key lo xs hi
      → last (take n xs) ≡ some z
      → (lo < key z) × (key z ≤ hi)
  last-bounds zero lo hi xs z h e = cc
  last-bounds (suc n) lo hi [] z h e = cc
  last-bounds (suc zero) lo hi (x ∷ xs) z h e = ground (arith, Increasing-le key (key x) hi xs h.1)
  last-bounds (suc (suc n)) lo hi (x ∷ []) z h e = ground arith
  last-bounds (suc (suc n)) lo hi (x ∷ y ∷ xs) z h e =
      omega (arith, last-bounds (suc n) (key x) hi (y ∷ xs) z h.1 e)

  -- The rows above the last row of a page are the rows behind the page.
  pub select-drop :
      (n lo hi : ℕ) (xs : List A) (z : A)
      → Increasing key lo xs hi
      → last (take n xs) ≡ some z
      → select (λ s. ltb (key z) (key s)) xs ≡ drop n xs
  unfolding select
  select-drop zero lo hi xs z h e = cc
  select-drop (suc n) lo hi [] z h e = cc
  select-drop (suc zero) lo hi (x ∷ xs) z h e =
      subst (λ y. select (λ s. ltb (key y) (key s)) (x ∷ xs) ≡ xs) (some-injective x z e)
        (ground (arith, select_above (key x) (key x) hi xs h.1))
  select-drop (suc (suc n)) lo hi (x ∷ []) z h e = ground arith
  select-drop (suc (suc n)) lo hi (x ∷ y ∷ xs) z h e = ground (
    arith,
    select-drop (suc n) (key x) hi (y ∷ xs) z h.1 e,
    last-bounds (suc n) (key x) hi (y ∷ xs) z h.1 e,
  )
