-- ===== src/Base/Int.antt =====
-- The signed 64-bit numbers of the wire and of the database: times, and cursors cast to `i64`.
use Prim.Native.Nat.{ℕ, suc, ◌-◌, ◌^◌}
use mathlib.Core.Path.{ap}
use mathlib.Core.Logic.{dite}
use mathlib.Core.Bool.{Bool, true, false}
use native.Mathlib.Decide.{ℕ_discrete}
use tui_chat.Base.Tests.{ltb, if◌then◌else◌}
use tui_chat.Base.Equality.{Eq}

-- `negsuc n` is -(n + 1).
pub data ℤ : Type 0 where
  pos : ℕ → ℤ
  negsuc : ℕ → ℤ

int_dec : Discrete ℤ
int_dec (pos a) (pos b) = dite (ℕ_discrete a b) (λ p. yes (ap pos p)) (λ n. no (λ q. n (cc)))
int_dec (pos a) (negsuc b) = no (λ q. cc)
int_dec (negsuc a) (pos b) = no (λ q. cc)
int_dec (negsuc a) (negsuc b) =
    dite (ℕ_discrete a b) (λ p. yes (ap negsuc p)) (λ n. no (λ q. n (cc)))

instance unfoldable pub int_eq : Eq ℤ
unfolding int_dec ℕ_discrete
int_eq = record { dec = int_dec }

abbrev pub ltb_ℤ : ℤ → ℤ → Bool
ltb_ℤ (pos a) (pos b) = ltb a b
ltb_ℤ (pos a) (negsuc b) = false
ltb_ℤ (negsuc a) (pos b) = true
ltb_ℤ (negsuc a) (negsuc b) = ltb b a

-- `n as i64` for a `u64`.
unfoldable pub as_i64 : ℕ → ℤ
as_i64 n = if ltb n (2 ^ 63) then pos n else negsuc (2 ^ 64 - suc n)
