-- ===== src/Client/Editor/Boundary.antt =====
-- The places of a text where crates/client/src/editor.rs may slice it.
use tui_chat.Base.{
  ℕ, zero, suc, ◌+◌, ◌-◌, ◌≡◌, ◌≤◌, refl, sym, ap, ◌∙◌, subst, true, [], ◌∷◌, ◌++◌, ok, nat_eq,
  list_eq, length, take, drop, arith,
}
use mathlib.Core.List.{append_assoc}
use tui_chat.Base.Slices.{take-append-drop}
use tui_chat.Base.Text.{Text}
use tui_chat.Base.Utf8.{is_utf8}
use tui_chat.Base.Utf8.Split.{utf8-append, utf8-cancel_left, first_of_utf8}
use tui_chat.Crypto.Frame.{take-append, drop-append, length-append}
use tui_chat.Client.Editor.{
  is_char_boundary, check_boundary, slice_to, slice_from, insert_str, remove_range,
}

-- Both sides of the cut are UTF-8.
pub record IsSplit (text : Text) (index : ℕ) : Type 0 where
  pub within : index ≤ length text
  pub before : is_utf8 (take index text) ≡ true
  pub after : is_utf8 (drop index text) ≡ true

pub IsSplit-append :
    (a b : Text) → is_utf8 a ≡ true → is_utf8 b ≡ true → IsSplit (a ++ b) (length a)
IsSplit-append a b h k = record {
  within = omega (arith, length-append a b);
  before = ap is_utf8 (take-append a b (length a) refl) ∙ h;
  after = ap is_utf8 (drop-append a b (length a) refl) ∙ k;
}

take-append_left : (a b : Text) (j : ℕ) → j ≤ length a → take j (a ++ b) ≡ take j a
take-append_left a b zero h = refl
take-append_left [] b (suc j) h = absurd (omega arith)
take-append_left (x ∷ a) b (suc j) h = ap (◌∷◌ x) (take-append_left a b j (omega arith))

drop-append_left : (a b : Text) (j : ℕ) → j ≤ length a → drop j (a ++ b) ≡ drop j a ++ b
drop-append_left a b zero h = refl
drop-append_left [] b (suc j) h = absurd (omega arith)
drop-append_left (x ∷ a) b (suc j) h = drop-append_left a b j (omega arith)

take-append_right : (a b : Text) (j k : ℕ) → length a + j ≡ k → take k (a ++ b) ≡ a ++ take j b
take-append_right [] b j k h = ap (λ (n : ℕ). take n b) (omega arith)
take-append_right (x ∷ a) b j zero h = absurd (omega arith)
take-append_right (x ∷ a) b j (suc k) h = ap (◌∷◌ x) (take-append_right a b j k (omega arith))

drop-append_right : (a b : Text) (j k : ℕ) → length a + j ≡ k → drop k (a ++ b) ≡ drop j b
drop-append_right [] b j k h = ap (λ (n : ℕ). drop n b) (omega arith)
drop-append_right (x ∷ a) b j zero h = absurd (omega arith)
drop-append_right (x ∷ a) b j (suc k) h = drop-append_right a b j k (omega arith)

pub IsSplit-append_left : (a b : Text) (j : ℕ) → IsSplit a j → is_utf8 b ≡ true → IsSplit (a ++ b) j
IsSplit-append_left a b j s h = record {
  within = omega (arith, length-append a b, s.within);
  before = ap is_utf8 (take-append_left a b j s.within) ∙ s.before;
  after = ap is_utf8 (drop-append_left a b j s.within) ∙ utf8-append (drop j a) b s.after h;
}

IsSplit-append_right :
    (a b : Text) (j : ℕ) → is_utf8 a ≡ true → IsSplit b j → IsSplit (a ++ b) (length a + j)
IsSplit-append_right a b j h s = record {
  within = omega (arith, length-append a b, s.within);
  before =
      ap is_utf8 (take-append_right a b j (length a + j) refl)
      ∙ utf8-append a (take j b) h s.before;
  after = ap is_utf8 (drop-append_right a b j (length a + j) refl) ∙ s.after;
}

pub length-take : (n : ℕ) (t : Text) → n ≤ length t → length (take n t) ≡ n
length-take zero t h = refl
length-take (suc n) [] h = absurd (omega arith)
length-take (suc n) (x ∷ t) h = ap suc (length-take n t (omega arith))

drop_all : (t : Text) (n : ℕ) → drop n t ≡ [] → length t ≤ n
drop_all [] n h = omega arith
drop_all (x ∷ t) zero h = cc
drop_all (x ∷ t) (suc n) h = omega (arith, drop_all t n h)

-- At such an index nothing panics.
pub IsSplit-boundary : (t : Text) (i : ℕ) → IsSplit t i → check_boundary t i ≡ ok tt
unfolding check_boundary is_char_boundary
IsSplit-boundary t i s = boundary_of (drop i t) refl
  where
    boundary_of : (rest : Text) → drop i t ≡ rest → check_boundary t i ≡ ok tt
    boundary_of [] e = ground (arith, e, drop_all t i e, s.within)
    boundary_of (b ∷ bs) e = ground (arith, e, first_of_utf8 b bs (ap is_utf8 (sym e) ∙ s.after))

module _ (t : Text) (i : ℕ) (s : IsSplit t i) where
  pub slice_to-IsSplit : slice_to t i ≡ ok (take i t)
  unfolding slice_to
  slice_to-IsSplit = ground (arith, IsSplit-boundary t i s)

  pub slice_from-IsSplit : slice_from t i ≡ ok (drop i t)
  unfolding slice_from
  slice_from-IsSplit = ground (arith, IsSplit-boundary t i s)

  pub insert_str-IsSplit :
      (value : Text)
      → is_utf8 value ≡ true
      → (insert_str t i value ≡ ok (take i t ++ (value ++ drop i t)))
        × IsSplit (take i t ++ (value ++ drop i t)) (i + length value)
  unfolding insert_str
  insert_str-IsSplit value h = (
    ground (arith, IsSplit-boundary t i s),
    subst (λ (x : Text). IsSplit x (i + length value)) (append_assoc (take i t) value (drop i t))
        (subst (IsSplit ((take i t ++ value) ++ drop i t))
          (omega (arith, length-append (take i t) value, length-take i t s.within))
          (IsSplit-append (take i t ++ value) (drop i t) (utf8-append (take i t) value s.before h)
            s.after)),
  )

  -- An index of the part before it, or of the part after it.
  pub IsSplit-take : (j : ℕ) → IsSplit (take i t) j → IsSplit t j
  IsSplit-take j k =
      subst (λ (x : Text). IsSplit x j) (take-append-drop i t)
        (IsSplit-append_left (take i t) (drop i t) j k s.after)

  pub IsSplit-drop : (j : ℕ) → IsSplit (drop i t) j → IsSplit t (i + j)
  IsSplit-drop j k =
      subst (λ (n : ℕ). IsSplit t (n + j)) (length-take i t s.within)
        (subst (λ (x : Text). IsSplit x (length (take i t) + j)) (take-append-drop i t)
          (IsSplit-append_right (take i t) (drop i t) j s.before k))

  pub remove_range-IsSplit :
      (j : ℕ)
      → IsSplit t j
      → i ≤ j
      → (remove_range t i j ≡ ok (take i t ++ drop j t)) × IsSplit (take i t ++ drop j t) i
  unfolding remove_range
  remove_range-IsSplit j k le = (
    ground (arith, IsSplit-boundary t i s, IsSplit-boundary t j k),
    subst (IsSplit (take i t ++ drop j t)) (length-take i t s.within)
        (IsSplit-append (take i t) (drop j t) s.before k.after),
  )

  -- The text between two such indices.
  pub IsSplit-between : (j : ℕ) → IsSplit t j → i ≤ j → IsSplit (drop i t) (j - i)
  IsSplit-between j k le =
      let whole = take-append-drop i t in
      let sum : length (take i t) + (j - i) ≡ j = omega (arith, length-take i t s.within) in
      record {
        within = omega (
          arith,
          k.within,
          ap length whole,
          length-append (take i t) (drop i t),
          length-take i t s.within,
        );
        before = utf8-cancel_left (take i t) (take (j - i) (drop i t)) s.before (
            ap is_utf8
              (sym (take-append_right (take i t) (drop i t) (j - i) j sum) ∙ ap (take j) whole)
            ∙ k.before);
        after =
            ap is_utf8
              (sym (drop-append_right (take i t) (drop i t) (j - i) j sum) ∙ ap (drop j) whole)
            ∙ k.after;
      }
