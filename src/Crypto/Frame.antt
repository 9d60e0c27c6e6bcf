-- ===== src/Crypto/Frame.antt =====
-- The bytes that crates/crypto/src/vault.rs writes for a blob and for a wrapped key: a marker of
-- three bytes, the version, 16 bytes of salt, 24 bytes of nonce, and the ciphertext.
use tui_chat.Base.{
  ℕ, zero, suc, ◌+◌, ◌-◌, Bool, true, [], ◌∷◌, ◌++◌, ◌==◌, ==_sound, ==_refl, list_eq, nat_eq,
  length, take, drop, ◌≡◌, ◌≤◌, refl, sym, ap, subst, ◌∙◌, arith,
}
use tui_chat.Base.Slices.{take-append-drop}
use tui_chat.Base.Text.{Bytes}

-- `slice::starts_with`
unfoldable pub starts_with : Bytes → Bytes → Bool
starts_with encoded prefix = take (length prefix) encoded == prefix

-- `encoded[from..to]`
abbrev pub slice : ℕ → ℕ → Bytes → Bytes
slice from to encoded = take (to - from) (drop from encoded)

-- `encoded[0]`; the source has tested the length.
unfoldable pub first_byte : Bytes → ℕ
first_byte [] = 0
first_byte (b ∷ bs) = b

unfoldable pub frame_bytes : Bytes → ℕ → Bytes → Bytes → Bytes → Bytes
frame_bytes marker version salt nonce ciphertext =
    marker ++ (version ∷ (salt ++ (nonce ++ ciphertext)))

pub take-append : (xs ys : Bytes) (n : ℕ) → length xs ≡ n → take n (xs ++ ys) ≡ xs
take-append [] ys zero h = refl
take-append [] ys (suc n) h = absurd (omega arith)
take-append (x ∷ xs) ys zero h = absurd (omega arith)
take-append (x ∷ xs) ys (suc n) h = ap (◌∷◌ x) (take-append xs ys n (omega arith))

pub drop-append : (xs ys : Bytes) (n : ℕ) → length xs ≡ n → drop n (xs ++ ys) ≡ ys
drop-append [] ys zero h = refl
drop-append [] ys (suc n) h = absurd (omega arith)
drop-append (x ∷ xs) ys zero h = absurd (omega arith)
drop-append (x ∷ xs) ys (suc n) h = drop-append xs ys n (omega arith)

pub length-append : (xs ys : Bytes) → length (xs ++ ys) ≡ length xs + length ys
length-append [] ys = omega arith
length-append (x ∷ xs) ys = omega (arith, length-append xs ys)

pub starts_with-append : (prefix rest : Bytes) → starts_with (prefix ++ rest) prefix ≡ true
unfolding starts_with
starts_with-append prefix rest = rw (take-append prefix rest (length prefix) refl) (==_refl prefix)

-- What starts with a prefix is the prefix and a rest.
pub append_of_starts_with :
    (encoded prefix : Bytes)
    → starts_with encoded prefix ≡ true
    → prefix ++ drop (length prefix) encoded ≡ encoded
unfolding starts_with
append_of_starts_with encoded prefix h =
    ap (λ (p : Bytes). p ++ drop (length prefix) encoded) (sym (==_sound _ _ h))
    ∙ take-append-drop (length prefix) encoded

drop-nil : (n : ℕ) → drop {A = ℕ} n [] ≡ []
drop-nil zero = refl
drop-nil (suc n) = refl

drop-drop : (n m k : ℕ) (xs : Bytes) → n + m ≡ k → drop m (drop n xs) ≡ drop k xs
drop-drop zero m k xs h = ap (λ (i : ℕ). drop i xs) (omega arith)
drop-drop (suc n) m k [] h = drop-nil m ∙ sym (drop-nil k)
drop-drop (suc n) m zero (x ∷ xs) h = absurd (omega arith)
drop-drop (suc n) m (suc k) (x ∷ xs) h = drop-drop n m k xs (omega arith)

-- `frame_bytes` puts together again what the slices take apart.
frame_bytes-slices :
    (marker rest : Bytes) (b : ℕ)
    → frame_bytes marker b (take 16 rest) (take 24 (drop 16 rest)) (drop 40 rest)
      ≡ marker ++ (b ∷ rest)
unfolding frame_bytes
frame_bytes-slices marker rest b =
    ap (λ (t : Bytes). marker ++ (b ∷ t))
      (ap (take 16 rest ++◌) (
          ap (take 24 (drop 16 rest) ++◌) (sym (drop-drop 16 24 40 rest (omega arith)))
          ∙ take-append-drop 24 (drop 16 rest))
        ∙ take-append-drop 16 rest)

-- The bytes of a frame with its marker, taken apart and put together.
pub frame_bytes-slice :
    (marker encoded : Bytes)
    → length marker ≡ 3
    → 44 ≤ length encoded
    → starts_with encoded marker ≡ true
    → frame_bytes marker
        (first_byte (drop 3 encoded))
        (slice 4 20 encoded)
        (slice 20 44 encoded)
        (drop 44 encoded)
      ≡ encoded
unfolding first_byte
frame_bytes-slice marker [] three len h = absurd (omega arith)
frame_bytes-slice marker (x ∷ []) three len h = absurd (omega arith)
frame_bytes-slice marker (x ∷ y ∷ []) three len h = absurd (omega arith)
frame_bytes-slice marker (x ∷ y ∷ z ∷ []) three len h = absurd (omega arith)
frame_bytes-slice marker (x ∷ y ∷ z ∷ b ∷ rest) three len h =
    frame_bytes-slices marker rest b
    ∙ subst (λ (n : ℕ). marker ++ drop n (x ∷ y ∷ z ∷ b ∷ rest) ≡ x ∷ y ∷ z ∷ b ∷ rest) three
        (append_of_starts_with (x ∷ y ∷ z ∷ b ∷ rest) marker h)
