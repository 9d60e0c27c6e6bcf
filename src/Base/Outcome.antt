-- ===== src/Base/Outcome.antt =====
-- Fallible code: a value, or the error that the server reports.
use mathlib.Core.Path.{◌≡◌, refl}
use mathlib.Core.Logic.{◌⊎◌, inl, inr}
use mathlib.Core.Bool.{Bool, true, false}
use mathlib.Core.Option.{Option, none, some}
use Prim.Native.String.{String}

-- `StorageRejection`
pub data StorageRejection : Type 0 where
  account_quota total_quota disk_pressure : StorageRejection

-- An `anyhow::Error`: a storage rejection, the text of a `bail!`, or a constraint that the
-- database refuses to violate.
pub data Error : Type 0 where
  storage : StorageRejection → Error
  message : String → Error
  constraint : Error

pub data Result {ℓ} (T : Type ℓ) : Type ℓ where
  ok : T → Result T
  err : Error → Result T

-- `if failed { bail!(error) }`
abbrev pub bail_if : Bool → Error → Result (Unit {0})
bail_if failed error = elim failed [ true ↦ err error | false ↦ ok tt ]

-- `Option::ok_or_else`
abbrev pub ok_or {ℓ} : {T : Type ℓ} → Option T → Error → Result T
ok_or option error = elim option [ some value ↦ ok value | none ↦ err error ]

-- The `?` of the source, for `do` blocks.
abbrev pub ◌>>=◌ {ℓ κ} : {T : Type ℓ} {S : Type κ} → Result T → (T → Result S) → Result S
outcome >>= next = elim outcome [ ok value ↦ next value | err error ↦ err error ]

abbrev pub ◌>>◌ {κ} : {S : Type κ} → Result (Unit {0}) → Result S → Result S
check >> rest = check >>= (λ done. rest)

infixl 5 ◌>>=◌ ◌>>◌
-- A block that returns has run its first statement with success, and then the rest.
pub >>=-eq-ok {ℓ κ} :
    {T : Type ℓ} {S : Type κ} (outcome : Result T) (next : T → Result S) {s : S}
    → (outcome >>= next) ≡ ok s
    → (value : T) × (outcome ≡ ok value) × (next value ≡ ok s)
>>=-eq-ok (err error) next h = cc
>>=-eq-ok (ok value) next h = (value, refl, h)

pub bail_if-eq-ok :
    (failed : Bool) (error : Error) {done : Unit {0}}
    → bail_if failed error ≡ ok done
    → failed ≡ false
bail_if-eq-ok false error h = refl
bail_if-eq-ok true error h = cc

module _ {ℓ} {A : Type ℓ} where
  abbrev pub is_some : Option A → Bool
  is_some none = false
  is_some (some a) = true

  abbrev pub unwrap_or : Option A → A → A
  unwrap_or none a = a
  unwrap_or (some b) a = b

-- `Option::map`
abbrev pub map_option {ℓ κ} : {A : Type ℓ} {B : Type κ} → (A → B) → Option A → Option B
map_option f none = none
map_option f (some a) = some (f a)

pub ok_or-eq-ok {ℓ} :
    {T : Type ℓ} (option : Option T) (error : Error) {value : T}
    → ok_or option error ≡ ok value
    → option ≡ some value
ok_or-eq-ok none error h = cc
ok_or-eq-ok (some value) error h = cc

pub ok-injective {ℓ} : {T : Type ℓ} {a b : T} → ok a ≡ ok b → a ≡ b
ok-injective h = cc

pub Result-cases {ℓ} :
    {T : Type ℓ} (outcome : Result T)
    → ((value : T) × (outcome ≡ ok value)) ⊎ ((error : Error) × (outcome ≡ err error))
Result-cases (ok value) = inl (value, refl)
Result-cases (err error) = inr (error, refl)
