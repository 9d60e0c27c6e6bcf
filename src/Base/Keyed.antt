-- ===== src/Base/Keyed.antt =====
-- Rows found in a list whose keys rise: a key determines its row.
use Prim.Native.Nat.{ℕ, zero, suc, ◌≤◌, ◌<◌}
use mathlib.Core.Path.{◌≡◌, refl}
use mathlib.Core.Bool.{Bool, false}
use mathlib.Core.Option.{some}
use mathlib.Core.List.{List, [], ◌∷◌}
use native.Mathlib.Omega.{arith}
use tui_chat.Base.Equality.{◌==◌, nat_eq}
use tui_chat.Base.Lists.{select, delete, find, any, take}
use tui_chat.Base.Order.{Increasing}

module _ {ℓ} {A : Type ℓ} where
  pub any-take : (q : A → Bool) (n : ℕ) (xs : List A) → any q xs ≡ false → any q (take n xs) ≡ false
  unfolding any
  any-take q zero xs h = refl
  any-take q (suc n) [] h = refl
  any-take q (suc n) (x ∷ xs) h = ground (arith, any-take q n xs)

  pub find-delete_kept :
      (q p : A → Bool) (xs : List A) (x : A)
      → find q xs ≡ some x
      → p x ≡ false
      → find q (delete p xs) ≡ some x
  unfolding find delete select
  find-delete_kept q p [] x h k = cc
  find-delete_kept q p (y ∷ xs) x h k = ground (arith, find-delete_kept q p xs x)

  module _ (key : A → ℕ) where
    pub lt_of_find :
        (q : A → Bool) (lo hi : ℕ) (xs : List A) (x : A)
        → Increasing key lo xs hi
        → find q xs ≡ some x
        → lo < key x
    unfolding find
    lt_of_find q lo hi [] x h f = cc
    lt_of_find q lo hi (y ∷ xs) x h f = ground (arith, lt_of_find q (key y) hi xs x h.1)

    any-select_below :
        (p : A → Bool) (k lo hi : ℕ) (xs : List A)
        → Increasing key lo xs hi
        → k ≤ lo
        → any (λ y. key y == k) (select p xs) ≡ false
    unfolding any select
    any-select_below p k lo hi [] h le = refl
    any-select_below p k lo hi (y ∷ xs) h le =
        ground (arith, any-select_below p k (key y) hi xs h.1)

    -- A row that `p` rejects shares its key with none of the rows that `p` selects.
    pub any-select_rejected :
        (q p : A → Bool) (lo hi : ℕ) (xs : List A) (x : A)
        → Increasing key lo xs hi
        → find q xs ≡ some x
        → p x ≡ false
        → any (λ y. key y == key x) (select p xs) ≡ false
    unfolding any select find
    any-select_rejected q p lo hi [] x h f r = cc
    any-select_rejected q p lo hi (y ∷ xs) x h f r = ground (
      arith,
      any-select_rejected q p (key y) hi xs x h.1,
      any-select_below p (key y) (key y) hi xs h.1,
      lt_of_find q (key y) hi xs x h.1,
    )
