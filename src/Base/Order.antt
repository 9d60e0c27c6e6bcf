-- ===== src/Base/Order.antt =====
-- Lists whose keys rise strictly, from above one bound up to another: the order of a primary key.
use Prim.Native.Nat.{ℕ, suc, ◌≤◌, ◌<◌}
use mathlib.Core.Path.{◌≡◌}
use mathlib.Core.Bool.{Bool}
use mathlib.Core.List.{List, [], ◌∷◌, ◌++◌}
use native.Mathlib.Omega.{arith}
use tui_chat.Base.Lists.{select, update, take}

module _ {ℓ} {A : Type ℓ} (key : A → ℕ) where
  abbrev pub Increasing : ℕ → List A → ℕ → Type 0
  Increasing lo [] hi = lo ≤ hi
  Increasing lo (x ∷ xs) hi = (lo < key x) × Increasing (key x) xs hi

  pub Increasing-le : (lo hi : ℕ) (xs : List A) → Increasing lo xs hi → lo ≤ hi
  Increasing-le lo hi [] h = h
  Increasing-le lo hi (x ∷ xs) h = omega (arith, Increasing-le (key x) hi xs h.1)

  pub Increasing-lower :
      (lo lo' hi : ℕ) (xs : List A) → lo' ≤ lo → Increasing lo xs hi → Increasing lo' xs hi
  Increasing-lower lo lo' hi [] le h = omega arith
  Increasing-lower lo lo' hi (x ∷ xs) le h = (omega arith, h.1)

  pub Increasing-upper :
      (lo hi hi' : ℕ) (xs : List A) → hi ≤ hi' → Increasing lo xs hi → Increasing lo xs hi'
  Increasing-upper lo hi hi' [] le h = omega arith
  Increasing-upper lo hi hi' (x ∷ xs) le h = (h.0, Increasing-upper (key x) hi hi' xs le h.1)

  pub Increasing-append :
      (lo hi hi' : ℕ) (xs : List A) (x : A)
      → Increasing lo xs hi
      → hi < key x
      → key x ≤ hi'
      → Increasing lo (xs ++ (x ∷ [])) hi'
  Increasing-append lo hi hi' [] x h lt le = (omega arith, le)
  Increasing-append lo hi hi' (y ∷ xs) x h lt le =
      (h.0, Increasing-append (key y) hi hi' xs x h.1 lt le)

  pub Increasing-select :
      (lo hi : ℕ) (p : A → Bool) (xs : List A)
      → Increasing lo xs hi
      → Increasing lo (select p xs) hi
  unfolding select
  Increasing-select lo hi p [] h = h
  Increasing-select lo hi p (x ∷ xs) h =
      ground
        (arith, Increasing-select (key x) hi p xs h.1, Increasing-lower (key x) lo hi (select p xs))

  pub Increasing-update :
      (lo hi : ℕ) (p : A → Bool) (f : A → A) (xs : List A)
      → ((x : A) → key (f x) ≡ key x)
      → Increasing lo xs hi
      → Increasing lo (update p f xs) hi
  unfolding update
  Increasing-update lo hi p f [] same h = h
  Increasing-update lo hi p f (x ∷ xs) same h =
      ground (arith, same x, Increasing-update (key x) hi p f xs same h.1)

  pub Increasing-take :
      (lo hi n : ℕ) (xs : List A) → Increasing lo xs hi → Increasing lo (take n xs) hi
  Increasing-take lo hi ℕ.zero xs h = Increasing-le lo hi xs h
  Increasing-take lo hi (suc n) [] h = h
  Increasing-take lo hi (suc n) (x ∷ xs) h = (h.0, Increasing-take (key x) hi n xs h.1)
