-- ===== src/Base/Maps.antt =====
-- `HashMap` as a list of entries; the order of the entries stands for the map's iteration order.
use mathlib.Core.Path.{◌≡◌, refl}
use mathlib.Core.Bool.{false}
use mathlib.Core.Option.{Option, none, some}
use mathlib.Core.List.{List, [], ◌∷◌}
use native.Mathlib.Omega.{arith}
use tui_chat.Base.Tests.{if◌then◌else◌}
use tui_chat.Base.Equality.{Eq, ◌==◌}

module _ {ℓ κ} {K : Type ℓ} {V : Type κ} ⦃eq : Eq K⦄ where
  unfoldable pub get : K → List (K × V) → Option V
  get k [] = none
  get k ((k', v) ∷ kvs) = if k' == k then some v else get k kvs

  unfoldable pub insert : K → V → List (K × V) → List (K × V)
  insert k v [] = (k, v) ∷ []
  insert k v ((k', v') ∷ kvs) = if k' == k then (k', v) ∷ kvs else (k', v') ∷ insert k v kvs

  -- `HashMap` has one entry for a key; the list drops them all.
  unfoldable pub remove : K → List (K × V) → List (K × V)
  remove k [] = []
  remove k ((k', v) ∷ kvs) = let rest = remove k kvs in if k' == k then rest else (k', v) ∷ rest

  pub get-insert_same : (k : K) (v : V) (m : List (K × V)) → get k (insert k v m) ≡ some v
  unfolding get insert
  get-insert_same k v [] = ground arith
  get-insert_same k v ((k', v') ∷ m) = ground (arith, get-insert_same k v m)

  pub get-insert_other :
      (k j : K) (v : V) (m : List (K × V)) → (k == j) ≡ false → get j (insert k v m) ≡ get j m
  unfolding get insert
  get-insert_other k j v [] h = ground arith
  get-insert_other k j v ((k', v') ∷ m) h = ground (arith, get-insert_other k j v m h)

  pub get-remove_same : (k : K) (m : List (K × V)) → get k (remove k m) ≡ none
  unfolding get remove
  get-remove_same k [] = refl
  get-remove_same k ((k', v') ∷ m) = ground (arith, get-remove_same k m)

  pub get-remove_other :
      (k j : K) (m : List (K × V)) → (k == j) ≡ false → get j (remove k m) ≡ get j m
  unfolding get remove
  get-remove_other k j [] h = refl
  get-remove_other k j ((k', v') ∷ m) h = ground (arith, get-remove_other k j m h)
