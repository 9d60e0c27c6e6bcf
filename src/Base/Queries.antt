-- ===== src/Base/Queries.antt =====
-- Laws of the queries of `Lists`.
use Prim.Native.Nat.{◌+◌, ℕ, ◌≤◌}
use mathlib.Core.Path.{◌≡◌, refl}
use mathlib.Core.Bool.{Bool, true, false, ◌||◌, ◌&&◌}
use mathlib.Core.Option.{none, some}
use mathlib.Core.List.{List, [], ◌∷◌, ◌++◌, map}
use native.Mathlib.Omega.{arith}
use tui_chat.Base.Outcome.{is_some}
use tui_chat.Base.Tests.{if◌then◌else◌}
use tui_chat.Base.Lists.{
  count, length, sort_by, insert_by, select, find, any, delete, update, sum_of,
}

module _ {ℓ} {A : Type ℓ} where
  pub any-append : (p : A → Bool) (xs ys : List A) → any p (xs ++ ys) ≡ (any p xs || any p ys)
  unfolding any
  any-append p [] ys = refl
  any-append p (x ∷ xs) ys = ground (arith, any-append p xs ys)

  pub find-append_found :
      (p : A → Bool) (xs ys : List A) (x : A) → find p xs ≡ some x → find p (xs ++ ys) ≡ some x
  unfolding find
  find-append_found p [] ys x h = cc
  find-append_found p (y ∷ xs) ys x h = ground (arith, find-append_found p xs ys x)

  pub find-append_missing :
      (p : A → Bool) (xs ys : List A) → any p xs ≡ false → find p (xs ++ ys) ≡ find p ys
  unfolding find any
  find-append_missing p [] ys h = refl
  find-append_missing p (y ∷ xs) ys h = ground (arith, find-append_missing p xs ys)

  pub find-none_of_any : (p : A → Bool) (xs : List A) → any p xs ≡ false → find p xs ≡ none
  unfolding find any
  find-none_of_any p [] h = refl
  find-none_of_any p (y ∷ xs) h = ground (arith, find-none_of_any p xs)

  pub any-find : (p : A → Bool) (xs : List A) → any p xs ≡ is_some (find p xs)
  unfolding find any
  any-find p [] = refl
  any-find p (x ∷ xs) = ground (arith, any-find p xs)

  pub any_of_find : (p : A → Bool) (xs : List A) (x : A) → find p xs ≡ some x → any p xs ≡ true
  unfolding find any
  any_of_find p [] x h = cc
  any_of_find p (y ∷ xs) x h = ground (arith, any_of_find p xs x)

  pub holds_of_find : (p : A → Bool) (xs : List A) (x : A) → find p xs ≡ some x → p x ≡ true
  unfolding find
  holds_of_find p [] x h = cc
  holds_of_find p (y ∷ xs) x h = ground (arith, holds_of_find p xs x)

  -- What a deletion leaves does not satisfy its test.
  pub any-delete_self : (p : A → Bool) (xs : List A) → any p (delete p xs) ≡ false
  unfolding any delete select
  any-delete_self p [] = refl
  any-delete_self p (x ∷ xs) = ground (arith, any-delete_self p xs)

  pub any-select_absent :
      (q p : A → Bool) (xs : List A) → any q xs ≡ false → any q (select p xs) ≡ false
  unfolding any select
  any-select_absent q p [] h = refl
  any-select_absent q p (x ∷ xs) h = ground (arith, any-select_absent q p xs)

  pub any-update :
      (q p : A → Bool) (f : A → A) (xs : List A)
      → ((x : A) → q (f x) ≡ q x)
      → any q (update p f xs) ≡ any q xs
  unfolding any update
  any-update q p f [] same = refl
  any-update q p f (x ∷ xs) same = ground (arith, same x, any-update q p f xs same)

  -- An update that makes its rows satisfy a test leaves one that does, where it had a row.
  pub any-update_made :
      (q p : A → Bool) (f : A → A) (xs : List A)
      → ((x : A) → p x ≡ true → q (f x) ≡ true)
      → any p xs ≡ true
      → any q (update p f xs) ≡ true
  unfolding any update
  any-update_made q p f [] made h = cc
  any-update_made q p f (x ∷ xs) made h = ground (arith, made x, any-update_made q p f xs made)

  pub any-select : (q p : A → Bool) (xs : List A) → any q (select p xs) ≡ any (λ x. p x && q x) xs
  unfolding any select
  any-select q p [] = refl
  any-select q p (x ∷ xs) = ground (arith, any-select q p xs)

  any-insert_by :
      (q : A → Bool) (before : A → A → Bool) (x : A) (xs : List A)
      → any q (insert_by before x xs) ≡ (q x || any q xs)
  unfolding any insert_by
  any-insert_by q before x [] = refl
  any-insert_by q before x (y ∷ ys) = ground (arith, any-insert_by q before x ys)

  -- Sorting changes nothing of what there is.
  pub any-sort_by :
      (q : A → Bool) (before : A → A → Bool) (xs : List A) → any q (sort_by before xs) ≡ any q xs
  unfolding any sort_by
  any-sort_by q before [] = refl
  any-sort_by q before (x ∷ xs) =
      ground (arith, any-insert_by q before x (sort_by before xs), any-sort_by q before xs)

  pub sum_of-update :
      (g : A → ℕ) (p : A → Bool) (f : A → A) (xs : List A)
      → ((x : A) → g (f x) ≡ g x)
      → sum_of g (update p f xs) ≡ sum_of g xs
  unfolding sum_of update
  sum_of-update g p f [] same = refl
  sum_of-update g p f (x ∷ xs) same = ground (arith, same x, sum_of-update g p f xs same)

  pub length-select-le : (p : A → Bool) (xs : List A) → length (select p xs) ≤ length xs
  unfolding select
  length-select-le p [] = omega arith
  length-select-le p (x ∷ xs) = ground (arith, length-select-le p xs)

  pub select-none : (p : A → Bool) (xs : List A) → any p xs ≡ false → select p xs ≡ []
  unfolding any select
  select-none p [] h = refl
  select-none p (x ∷ xs) h = ground (arith, select-none p xs)

  pub delete-none : (p : A → Bool) (xs : List A) → any p xs ≡ false → delete p xs ≡ xs
  unfolding any delete select
  delete-none p [] h = refl
  delete-none p (x ∷ xs) h = ground (arith, delete-none p xs)

  -- A deletion splits a table, and every sum over it.
  pub length-delete :
      (p : A → Bool) (xs : List A) → length xs ≡ length (select p xs) + length (delete p xs)
  unfolding delete select
  length-delete p [] = omega arith
  length-delete p (x ∷ xs) = ground (arith, length-delete p xs)

  pub sum_of-delete :
      (f : A → ℕ) (p : A → Bool) (xs : List A)
      → sum_of f xs ≡ sum_of f (select p xs) + sum_of f (delete p xs)
  unfolding sum_of delete select
  sum_of-delete f p [] = omega arith
  sum_of-delete f p (x ∷ xs) = ground (arith, sum_of-delete f p xs)

  pub count-none : (p : A → Bool) (xs : List A) → any p xs ≡ false → count p xs ≡ 0
  unfolding count any
  count-none p [] h = refl
  count-none p (x ∷ xs) h = ground (arith, count-none p xs)

  pub update-none : (p : A → Bool) (f : A → A) (xs : List A) → any p xs ≡ false → update p f xs ≡ xs
  unfolding any update
  update-none p f [] h = refl
  update-none p f (x ∷ xs) h = ground (arith, update-none p f xs)

  -- An update that keeps the test of a row updates the first row that satisfies it.
  pub find-update_self :
      (p : A → Bool) (f : A → A) (xs : List A) (x : A)
      → ((y : A) → p (f y) ≡ p y)
      → find p xs ≡ some x
      → find p (update p f xs) ≡ some (f x)
  unfolding find update
  find-update_self p f [] x same h = cc
  find-update_self p f (y ∷ xs) x same h = ground (arith, same y, find-update_self p f xs x same)

  -- A second update that has nothing to add changes nothing.
  pub update_again :
      (p : A → Bool) (f g : A → A) (xs : List A)
      → ((y : A) → g (f y) ≡ f y)
      → ((y : A) → p (f y) ≡ p y)
      → update p g (update p f xs) ≡ update p f xs
  unfolding update
  update_again p f g [] h same = refl
  update_again p f g (x ∷ xs) h same = ground (arith, h x, same x, update_again p f g xs h same)

  -- An update after which the test fails leaves no row that satisfies it.
  pub any-update_gone :
      (p : A → Bool) (f : A → A) (xs : List A)
      → ((y : A) → p (f y) ≡ false)
      → any p (update p f xs) ≡ false
  unfolding any update
  any-update_gone p f [] gone = refl
  any-update_gone p f (x ∷ xs) gone = ground (arith, gone x, any-update_gone p f xs gone)

  -- An update that keeps a test updates the first row that satisfies it, if the update is for it.
  pub find-update :
      (q p : A → Bool) (f : A → A) (xs : List A) (x : A)
      → ((y : A) → q (f y) ≡ q y)
      → find q xs ≡ some x
      → find q (update p f xs) ≡ some (if p x then f x else x)
  unfolding find update
  find-update q p f [] x same h = cc
  find-update q p f (y ∷ xs) x same h = ground (arith, same y, find-update q p f xs x same)

module _ {ℓ κ} {A : Type ℓ} {B : Type κ} where
  pub any-map : (q : B → Bool) (f : A → B) (xs : List A) → any q (map f xs) ≡ any (λ x. q (f x)) xs
  unfolding any
  any-map q f [] = refl
  any-map q f (x ∷ xs) = ground (arith, any-map q f xs)
