-- ===== src/Protocol/Payload/Injective.antt =====
-- The signed byte strings of crates/protocol/src/lib.rs and the parts that they are made of.
use mathlib.Core.List.{append_assoc}
use tui_chat.Base.{
  ℕ, ◌/◌, ◌%◌, ◌<◌, ◌≡◌, refl, sym, ap, ◌∙◌, List, [], ◌∷◌, ◌++◌, length, arith, All,
}
use tui_chat.Base.Text.{Bytes, Text, text}
use tui_chat.Protocol.Payload.{
  be32, be64, fields, device_certificate_payload, auth_challenge_payload,
}

-- Lists that begin with parts of one length are equal only part by part.
append-injective :
    (xs ys zs ws : Bytes) → length xs ≡ length ys → xs ++ zs ≡ ys ++ ws → (xs ≡ ys) × (zs ≡ ws)
append-injective [] [] zs ws l h = (refl, h)
append-injective [] (y ∷ ys) zs ws l h = absurd (omega (arith, l))
append-injective (x ∷ xs) [] zs ws l h = absurd (omega (arith, l))
append-injective (x ∷ xs) (y ∷ ys) zs ws l h =
    let rest = append-injective xs ys zs ws (omega (arith, l)) in ground (arith, h, rest)

abbrev IsShort : Bytes → Type 0
IsShort bytes = length bytes < 4294967296

be32-length : (n m : ℕ) → length (be32 n) ≡ length (be32 m)
unfolding be32
be32-length n m = refl

tail-equal : {a b : ℕ} {xs ys : Bytes} → a ∷ xs ≡ b ∷ ys → xs ≡ ys
tail-equal h = ground (arith, h)

same_bytes :
    (n m : ℕ)
    → be32 n ≡ be32 m
    → (n / 16777216 % 256 ≡ m / 16777216 % 256)
      × (n / 65536 % 256 ≡ m / 65536 % 256)
      × (n / 256 % 256 ≡ m / 256 % 256)
      × (n % 256 ≡ m % 256)
unfolding be32
same_bytes n m h = ground (arith, h)

be32-injective : (n m : ℕ) → n < 4294967296 → m < 4294967296 → be32 n ≡ be32 m → n ≡ m
be32-injective n m hn hm h = let (a, b, c, d) = same_bytes n m h in omega (arith, a, b, c, d)

-- The lengths are written in 32 bits: shorter byte strings are told apart, whatever follows.
fields-injective :
    (xs ys : List Bytes) (zs ws : Bytes)
    → All IsShort xs
    → All IsShort ys
    → length xs ≡ length ys
    → fields xs ++ zs ≡ fields ys ++ ws
    → (xs ≡ ys) × (zs ≡ ws)
unfolding fields
fields-injective [] [] zs ws sx sy l h = (refl, h)
fields-injective [] (y ∷ ys) zs ws sx sy l h = absurd (omega (arith, l))
fields-injective (x ∷ xs) [] zs ws sx sy l h = absurd (omega (arith, l))
fields-injective (x ∷ xs) (y ∷ ys) zs ws sx sy l h =
    let (same_length, rest) =
      append-injective (be32 (length x)) (be32 (length y)) ((x ++ fields xs) ++ zs)
        ((y ++ fields ys) ++ ws) (be32-length (length x) (length y))
        (sym (append_assoc (be32 (length x)) (x ++ fields xs) zs)
          ∙ h
          ∙ append_assoc (be32 (length y)) (y ++ fields ys) ws) in
    let (same, others) =
      append-injective x y (fields xs ++ zs) (fields ys ++ ws)
        (be32-injective (length x) (length y) sx.0 sy.0 same_length)
        (sym (append_assoc x (fields xs) zs) ∙ rest ∙ append_assoc y (fields ys) ws) in
    ground (arith, same, fields-injective xs ys zs ws sx.1 sy.1 (omega (arith, l)) others)

be64-injective :
    (n m : ℕ) → n < 18446744073709551616 → m < 18446744073709551616 → be64 n ≡ be64 m → n ≡ m
unfolding be64
be64-injective n m hn hm h =
    let (high, low) =
      append-injective (be32 (n / 4294967296)) (be32 (m / 4294967296)) (be32 n) (be32 m)
        (be32-length (n / 4294967296) (m / 4294967296)) h in
    let high' = be32-injective (n / 4294967296) (m / 4294967296) (omega arith) (omega arith) high in
    let (a, b, c, d) = same_bytes n m low in omega (arith, high', a, b, c, d)

-- What a device certificate signs names the account, the device and its three keys: equal bytes
-- have equal parts, provided that every part is shorter than 2 ^ 32 bytes.
pub device_certificate_payload-injective :
    (account account' device device' : Text) (auth auth' ed ed' curve curve' : Bytes)
    → All IsShort (account ∷ device ∷ auth ∷ ed ∷ curve ∷ [])
    → All IsShort (account' ∷ device' ∷ auth' ∷ ed' ∷ curve' ∷ [])
    → device_certificate_payload account device auth ed curve
      ≡ device_certificate_payload account' device' auth' ed' curve'
    → (account ≡ account') × (device ≡ device') × (auth ≡ auth') × (ed ≡ ed') × (curve ≡ curve')
unfolding device_certificate_payload
device_certificate_payload-injective account account' device device' auth auth' ed ed' curve curve'
      short short' h =
    let (same, rest) =
      append-injective (text "tui-chat-device-certificate-v1")
        (text "tui-chat-device-certificate-v1") _ _ refl h in
    let (equal, end) =
      fields-injective (account ∷ device ∷ auth ∷ ed ∷ curve ∷ [])
        (account' ∷ device' ∷ auth' ∷ ed' ∷ curve' ∷ []) [] [] short short' refl
        (ap (λ bytes. bytes ++ []) (tail-equal rest)) in
    ground (arith, equal)

-- What an authentication signs names the domain, the user, the device, the nonce and the expiry:
-- equal bytes have equal parts, provided that the parts are shorter than 2 ^ 32 bytes and the
-- expiries below 2 ^ 64.
pub auth_challenge_payload-injective :
    (domain domain' username username' device device' : Text) (nonce nonce' : Bytes)
    (expires expires' : ℕ)
    → All IsShort (domain ∷ username ∷ device ∷ nonce ∷ [])
    → All IsShort (domain' ∷ username' ∷ device' ∷ nonce' ∷ [])
    → expires < 18446744073709551616
    → expires' < 18446744073709551616
    → auth_challenge_payload domain username device nonce expires
      ≡ auth_challenge_payload domain' username' device' nonce' expires'
    → (domain ≡ domain')
      × (username ≡ username')
      × (device ≡ device')
      × (nonce ≡ nonce')
      × (expires ≡ expires')
unfolding auth_challenge_payload
auth_challenge_payload-injective domain domain' username username' device device' nonce nonce'
      expires expires' short short' small small' h =
    let (same, rest) =
      append-injective (text "tui-chat-device-auth-v1") (text "tui-chat-device-auth-v1") _ _ refl
        h in
    let (equal, end) =
      fields-injective (domain ∷ username ∷ device ∷ nonce ∷ [])
        (domain' ∷ username' ∷ device' ∷ nonce' ∷ []) (be64 expires) (be64 expires') short short'
        refl (tail-equal rest) in
    ground (arith, equal, be64-injective expires expires' small small' end)
