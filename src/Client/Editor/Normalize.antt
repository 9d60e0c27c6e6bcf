-- ===== src/Client/Editor/Normalize.antt =====
-- What `insert` of crates/client/src/editor.rs makes of a value: UTF-8 with no control characters.
use tui_chat.Base.{
  ℕ, zero, suc, ◌≡◌, ◌≤◌, ◌<◌, refl, sym, subst, inl, inr, ltb, true, false, ◌&&◌, ◌||◌, [], ◌∷◌,
  ◌++◌, Option, none, some, ◌==◌, nat_eq, ==_sound, arith, Bool-cases,
}
use tui_chat.Base.Text.{Text}
use tui_chat.Base.Utf8.{is_utf8, utf8_rest, follow}
use tui_chat.Client.Editor.Loops.{nil_utf8}
use tui_chat.Base.Utf8.Split.{IsContinuation, follow_bounds, utf8-append}
use tui_chat.Client.Editor.Clean.{
  replace_crlf, replace_cr, clean_byte, clean, normalize, is_c1, replacement,
}
use tui_chat.Client.Editor.Control.{has_control, has_control-clean}

-- Wherever in a character the first text may stand, the second may.
abbrev Fits : Text → Text → Type 0
Fits bs cs =
    (k lo hi : ℕ) → IsContinuation lo hi → utf8_rest k lo hi bs ≡ true → utf8_rest k lo hi cs ≡ true

first_inv :
    (lo hi b : ℕ) (bs : Text)
    → utf8_rest 0 lo hi (b ∷ bs) ≡ true
    → (n lo' hi' : ℕ) × (follow b ≡ some (n, lo', hi')) × (utf8_rest n lo' hi' bs ≡ true)
unfolding utf8_rest
first_inv lo hi b bs h = first_of (follow b) refl
  where
    first_of :
        (o : Option (ℕ × ℕ × ℕ))
        → follow b ≡ o
        → (n lo' hi' : ℕ) × (follow b ≡ some (n, lo', hi')) × (utf8_rest n lo' hi' bs ≡ true)
    first_of none e = absurd (ground (arith, h, e))
    first_of (some (n, lo', hi')) e = (n, lo', hi', e, ground (arith, h, e))

first_intro :
    (lo hi b n lo' hi' : ℕ) (bs : Text)
    → follow b ≡ some (n, lo', hi')
    → utf8_rest n lo' hi' bs ≡ true
    → utf8_rest 0 lo hi (b ∷ bs) ≡ true
unfolding utf8_rest
first_intro lo hi b n lo' hi' bs e h = ground (arith, e, h)

rest_inv :
    (k lo hi b : ℕ) (bs : Text)
    → utf8_rest (suc k) lo hi (b ∷ bs) ≡ true
    → (lo ≤ b) × (b ≤ hi) × (utf8_rest k 128 191 bs ≡ true)
unfolding utf8_rest
rest_inv k lo hi b bs h = ground (arith, h)

rest_intro :
    (k lo hi b : ℕ) (bs : Text)
    → lo ≤ b
    → b ≤ hi
    → utf8_rest k 128 191 bs ≡ true
    → utf8_rest (suc k) lo hi (b ∷ bs) ≡ true
unfolding utf8_rest
rest_intro k lo hi b bs l u h = ground (arith, h)

-- Between characters the range does not matter.
between :
    (lo hi lo' hi' : ℕ) (bs : Text) → utf8_rest 0 lo hi bs ≡ true → utf8_rest 0 lo' hi' bs ≡ true
unfolding utf8_rest
between lo hi lo' hi' [] h = refl
between lo hi lo' hi' (b ∷ bs) h = h

Fits-cons : (b : ℕ) (bs cs : Text) → Fits bs cs → Fits (b ∷ bs) (b ∷ cs)
Fits-cons b bs cs f zero lo hi w h =
    let (n, lo', hi', e, rest) = first_inv lo hi b bs h in
    first_intro lo hi b n lo' hi' cs e (f n lo' hi' (follow_bounds b n lo' hi' e) rest)
Fits-cons b bs cs f (suc k) lo hi w h =
    let (l, u, rest) = rest_inv k lo hi b bs h in
    rest_intro k lo hi b cs l u (f k 128 191 (omega arith, omega arith) rest)

follow_ascii : (b : ℕ) → b < 128 → follow b ≡ some (0, 128, 191)
unfolding follow
follow_ascii b lt = ground arith

-- A byte below 128 stands between two characters.
ascii_next :
    (k lo hi b : ℕ) (bs : Text)
    → IsContinuation lo hi
    → b < 128
    → utf8_rest k lo hi (b ∷ bs) ≡ true
    → (k ≡ 0) × (utf8_rest 0 128 191 bs ≡ true)
ascii_next zero lo hi b bs w lt h =
    let (n, lo', hi', e, rest) = first_inv lo hi b bs h in (refl, cc (e, follow_ascii b lt, rest))
ascii_next (suc k) lo hi b bs w lt h = absurd (omega (arith, rest_inv k lo hi b bs h))

-- A character of one byte may be left out, or become another one, or any text that is UTF-8.
Fits-ascii :
    (b : ℕ) (bs cs front : Text)
    → b < 128
    → is_utf8 front ≡ true
    → Fits bs cs
    → Fits (b ∷ bs) (front ++ cs)
unfolding is_utf8
Fits-ascii b bs cs front lt v f k lo hi w h =
    let (same, rest) = ascii_next k lo hi b bs w lt h in
    subst (λ (n : ℕ). utf8_rest n lo hi (front ++ cs) ≡ true) (sym same)
      (between 128 191 lo hi (front ++ cs)
        (utf8-append front cs v (f 0 128 191 (omega arith, omega arith) rest)))

c1_first : (b c : ℕ) → is_c1 b c ≡ true → b ≡ 194
c1_first b c e = ground (arith, e, ==_sound b 194)

follow_c1 : (b c : ℕ) → is_c1 b c ≡ true → follow b ≡ some (1, 128, 191)
unfolding follow
follow_c1 b c e = ground (arith, c1_first b c e)

utf8-append_replacement :
    (cs : Text) → utf8_rest 0 128 191 cs ≡ true → utf8_rest 0 128 191 (replacement ++ cs) ≡ true
unfolding is_utf8 utf8_rest follow
utf8-append_replacement cs h = utf8-append replacement cs refl h

Fits-c1 :
    (b c : ℕ) (bs cs : Text) → is_c1 b c ≡ true → Fits bs cs → Fits (b ∷ c ∷ bs) (replacement ++ cs)
Fits-c1 b c bs cs e f zero lo hi w h =
    let (n, lo', hi', e1, rest) = first_inv lo hi b (c ∷ bs) h in
    between 128 191 lo hi (replacement ++ cs) (
      utf8-append_replacement cs (
        f 0 128 191 (omega arith, omega arith)
          (rest_inv 0 128 191 c bs (cc (e1, follow_c1 b c e, rest))).2))
Fits-c1 b c bs cs e f (suc k) lo hi w h =
    absurd (omega (arith, rest_inv k lo hi b (c ∷ bs) h, c1_first b c e))

newline_utf8 : is_utf8 (10 ∷ []) ≡ true
unfolding is_utf8 utf8_rest follow
newline_utf8 = refl

spaces_utf8 : is_utf8 (32 ∷ 32 ∷ 32 ∷ 32 ∷ []) ≡ true
unfolding is_utf8 utf8_rest follow
spaces_utf8 = refl

replacement_utf8 : is_utf8 replacement ≡ true
unfolding is_utf8 utf8_rest follow
replacement_utf8 = refl

Fits-replace_cr : (bs : Text) → Fits bs (replace_cr bs)
unfolding replace_cr
Fits-replace_cr [] = λ k lo hi w h. h
Fits-replace_cr (b ∷ bs) = elim (Bool-cases (b == 13)) [
  | inl e ↦ rw e (
      Fits-ascii b bs (replace_cr bs) (10 ∷ []) (ground (arith, ==_sound b 13 e)) newline_utf8
        (Fits-replace_cr bs))
  | inr n ↦ rw n (Fits-cons b bs (replace_cr bs) (Fits-replace_cr bs))
]

Fits-replace_crlf : (bs : Text) → Fits bs (replace_crlf bs)
unfolding replace_crlf
Fits-replace_crlf [] = λ k lo hi w h. h
Fits-replace_crlf (b ∷ []) = λ k lo hi w h. h
Fits-replace_crlf (b ∷ c ∷ bs) = elim (Bool-cases (b == 13 && c == 10)) [
  | inl e ↦ rw e (
      Fits-ascii b (c ∷ bs) (replace_crlf (c ∷ bs)) [] (ground (arith, e, ==_sound b 13)) nil_utf8
        (Fits-replace_crlf (c ∷ bs)))
  | inr n ↦ rw n (Fits-cons b (c ∷ bs) (replace_crlf (c ∷ bs)) (Fits-replace_crlf (c ∷ bs)))
]

Fits-clean_byte : (b : ℕ) (bs cs : Text) → Fits bs cs → Fits (b ∷ bs) (clean_byte b cs)
unfolding clean_byte
Fits-clean_byte b bs cs f = elim (Bool-cases (b == 10)) [
  | inl e ↦ rw e (Fits-ascii b bs cs (10 ∷ []) (ground (arith, ==_sound b 10 e)) newline_utf8 f)
  | inr n ↦ rw n (elim (Bool-cases (b == 9)) [
    | inl e ↦
        rw e (
          Fits-ascii b bs cs (32 ∷ 32 ∷ 32 ∷ 32 ∷ []) (ground (arith, ==_sound b 9 e)) spaces_utf8
            f)
    | inr n' ↦ rw n' (elim (Bool-cases (ltb b 32 || b == 127)) [
      | inl e ↦
          rw e
            (Fits-ascii b bs cs replacement (ground (arith, e, ==_sound b 127)) replacement_utf8 f)
      | inr k ↦ rw k (Fits-cons b bs cs f)
    ])
  ])
]

Fits-clean : (bs : Text) → Fits bs (clean bs)
unfolding clean
Fits-clean [] = λ k lo hi w h. h
Fits-clean (b ∷ []) = Fits-clean_byte b [] [] (λ k lo hi w h. h)
Fits-clean (b ∷ c ∷ bs) = elim (Bool-cases (is_c1 b c)) [
  | inl e ↦ rw e (Fits-c1 b c bs (clean bs) e (Fits-clean bs))
  | inr n ↦ rw n (Fits-clean_byte b (c ∷ bs) (clean (c ∷ bs)) (Fits-clean (c ∷ bs)))
]

pub normalize-utf8 : (value : Text) → is_utf8 value ≡ true → is_utf8 (normalize value) ≡ true
unfolding normalize is_utf8
normalize-utf8 value h =
    let w : IsContinuation 128 191 = (omega arith, omega arith) in
    Fits-clean (replace_cr (replace_crlf value)) 0 128 191 w
      (Fits-replace_cr (replace_crlf value) 0 128 191 w (Fits-replace_crlf value 0 128 191 w h))

pub has_control-normalize : (value : Text) → has_control (normalize value) ≡ false
unfolding normalize
has_control-normalize value = has_control-clean (replace_cr (replace_crlf value))
