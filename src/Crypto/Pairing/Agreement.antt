-- ===== src/Crypto/Pairing/Agreement.antt =====
-- Both devices of a pairing (crates/crypto/src/pairing.rs) have the same channel.
use tui_chat.Base.{
  ℕ, ◌/◌, ◌≡◌, ◌≤◌, ◌<◌, refl, sym, ap, ◌∙◌, subst, All, zero, suc, [], ◌∷◌, ok, ok-injective,
  ok_or, ok_or-eq-ok, >>=-eq-ok, length, arith,
}
use tui_chat.Base.Text.{Bytes, Text}
use tui_chat.Protocol.Payload.Conversation.{text_le-total, text_le-antisym}
use tui_chat.Crypto.Frame.{take-append, drop-append, length-append}
use tui_chat.Crypto.Vault.{Cipher, Unseals}
use tui_chat.Crypto.Pairing.{
  Curve, PairingChannel, byte_at, sas_numbers, pairing_info, from_secret, establish, encrypt,
  decrypt,
}

abbrev pub Agrees : Curve → Type 0
Agrees curve =
    (a b : Bytes)
    → curve.diffie_hellman a (curve.public_of b) ≡ curve.diffie_hellman b (curve.public_of a)

-- The output of HKDF is a list of bytes.
abbrev pub IsBytes : Bytes → Type 0
IsBytes = All (λ b. b < 256)

byte_at-IsBytes : (output : Bytes) (i : ℕ) → IsBytes output → byte_at i output < 256
unfolding byte_at
byte_at-IsBytes [] zero h = omega arith
byte_at-IsBytes [] (suc i) h = omega arith
byte_at-IsBytes (b ∷ bs) zero h = h.0
byte_at-IsBytes (b ∷ bs) (suc i) h = byte_at-IsBytes bs i h.1

-- The three numbers of an output of bytes have four digits: each is from 1000 to 9191.
pub sas_numbers_bounds :
    (output : Bytes)
    → IsBytes output
    → let (x, y, z) = sas_numbers output in
      ((1000 ≤ x) × (x ≤ 9191)) × ((1000 ≤ y) × (y ≤ 9191)) × ((1000 ≤ z) × (z ≤ 9191))
unfolding sas_numbers
sas_numbers_bounds output h = omega (
  arith,
  byte_at-IsBytes output 32 h,
  byte_at-IsBytes output 33 h,
  byte_at-IsBytes output 34 h,
  byte_at-IsBytes output 35 h,
  byte_at-IsBytes output 36 h,
)

-- The numbers lose nothing of the 39 bits that they show: two outputs that give the same numbers
-- agree in the bytes 32 to 35 and in the upper seven bits of byte 36.
pub sas_numbers-injective :
    (x y : Bytes)
    → IsBytes x
    → IsBytes y
    → sas_numbers x ≡ sas_numbers y
    → (byte_at 32 x ≡ byte_at 32 y)
      × (byte_at 33 x ≡ byte_at 33 y)
      × (byte_at 34 x ≡ byte_at 34 y)
      × (byte_at 35 x ≡ byte_at 35 y)
      × (byte_at 36 x / 2 ≡ byte_at 36 y / 2)
unfolding sas_numbers
sas_numbers-injective x y h k e = omega (
  arith,
  ap (λ (s : ℕ × ℕ × ℕ). s.0) e,
  ap (λ (s : ℕ × ℕ × ℕ). s.1) e,
  ap (λ (s : ℕ × ℕ × ℕ). s.2) e,
  byte_at-IsBytes x 32 h,
  byte_at-IsBytes x 33 h,
  byte_at-IsBytes x 34 h,
  byte_at-IsBytes x 35 h,
  byte_at-IsBytes x 36 h,
  byte_at-IsBytes y 32 k,
  byte_at-IsBytes y 33 k,
  byte_at-IsBytes y 34 k,
  byte_at-IsBytes y 35 k,
  byte_at-IsBytes y 36 k,
)

pairing_info_comm :
    (pairing_id : Text) (x y : Bytes) → pairing_info pairing_id x y ≡ pairing_info pairing_id y x
unfolding pairing_info
pairing_info_comm pairing_id x y =
    ground (arith, text_le-total x y, text_le-total y x, text_le-antisym x y)

-- Two devices that have each other's public key come to the same key and the same numbers for a
-- pairing, or fail with the same error.
pub establish_comm :
    (curve : Curve) (a b : Bytes) (pairing_id : Text)
    → Agrees curve
    → establish curve (from_secret curve a) (curve.public_of b) pairing_id
      ≡ establish curve (from_secret curve b) (curve.public_of a) pairing_id
unfolding establish from_secret
establish_comm curve a b pairing_id agrees =
    rw (agrees a b, pairing_info_comm pairing_id (curve.public_of a) (curve.public_of b)) refl

-- What one device encrypts for a pairing, the other decrypts with the same channel: the 24 bytes of
-- the nonce are found in front.
decrypt-encrypt :
    (cipher : Cipher) (channel : PairingChannel) (nonce : Bytes) (pairing_id : Text)
    (plain payload : Bytes)
    → Unseals cipher
    → length nonce ≡ 24
    → encrypt cipher channel nonce pairing_id plain ≡ ok payload
    → decrypt cipher channel pairing_id payload ≡ ok plain
unfolding encrypt decrypt
decrypt-encrypt cipher channel nonce pairing_id plain payload law len made =
    let (sealed, enc, done) =
      >>=-eq-ok (ok_or (cipher.seal channel.key nonce pairing_id plain) _) _ made in
    ground (
      arith,
      law channel.key nonce pairing_id plain sealed (ok_or-eq-ok _ _ enc),
      take-append nonce sealed 24 len,
      drop-append nonce sealed 24 len,
      length-append nonce sealed,
    )

-- Where both sides of a key exchange get the same secret and decryption undoes encryption: two
-- devices that paired by each other's public keys show their users the same numbers, and what one
-- encrypts for the pairing with a nonce of 24 bytes, the other decrypts.
pub establish-decrypt :
    (curve : Curve) (cipher : Cipher) (a b nonce plain payload : Bytes) (pairing_id : Text)
    (ours theirs : PairingChannel)
    → Agrees curve
    → Unseals cipher
    → length nonce ≡ 24
    → establish curve (from_secret curve a) (curve.public_of b) pairing_id ≡ ok ours
    → establish curve (from_secret curve b) (curve.public_of a) pairing_id ≡ ok theirs
    → encrypt cipher ours nonce pairing_id plain ≡ ok payload
    → (ours.sas ≡ theirs.sas) × (decrypt cipher theirs pairing_id payload ≡ ok plain)
establish-decrypt curve cipher a b nonce plain payload pairing_id ours theirs agrees law len o t
      made =
    let same : ours ≡ theirs =
      ok-injective (sym o ∙ (establish_comm curve a b pairing_id agrees ∙ t)) in
    (
      ap (λ (c : PairingChannel). c.sas) same,
      subst (λ (c : PairingChannel). decrypt cipher c pairing_id payload ≡ ok plain) same
          (decrypt-encrypt cipher ours nonce pairing_id plain payload law len made),
    )
