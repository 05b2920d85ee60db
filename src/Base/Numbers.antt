-- ===== src/Base/Numbers.antt =====
-- The numbers of the program where it does not know yet that they are natural: `isSafeInteger`.
use Prim.Native.Nat.{ℕ, suc}
use mathlib.Core.Path.{◌≡◌, sym, ap}
use mathlib.Core.Logic.{◌↔◌}
use mathlib.Core.Bool.{Bool, true, false}
use mathlib.Core.Option.{Option, none, some}
use native.Mathlib.Omega.{arith}
use trams_assignment.Base.Tests.{leb, ◌==◌}

-- `negative n` is -(n + 1); `not_whole` is a fraction, NaN or an infinity.
pub data Number : Type 0 where
  whole : ℕ → Number
  negative : ℕ → Number
  not_whole : Number

-- 2^53 - 1
abbrev pub max_safe_integer : ℕ
max_safe_integer = 9007199254740991

abbrev pub is_safe_integer : Number → Bool
is_safe_integer (whole n) = leb n max_safe_integer
is_safe_integer (negative n) = leb (suc n) max_safe_integer
is_safe_integer not_whole = false

-- `value ?? fallback`
abbrev pub or_default {ℓ} : {A : Type ℓ} → Option A → A → A
or_default none fallback = fallback
or_default (some value) fallback = value

-- Whole numbers.
pub data ℤ : Type 0 where
  pos : ℕ → ℤ
  negsuc : ℕ → ℤ

infix 50 ◌==ℤ◌
abbrev pub ◌==ℤ◌ : ℤ → ℤ → Bool
pos m ==ℤ pos n = m == n
pos m ==ℤ negsuc n = false
negsuc m ==ℤ pos n = false
negsuc m ==ℤ negsuc n = m == n

abbrev size : ℤ → ℕ
size (pos n) = n
size (negsuc n) = n

abbrev is_pos : ℤ → Bool
is_pos (pos n) = true
is_pos (negsuc n) = false

pub ==ℤ_iff : (i j : ℤ) → ((i ==ℤ j) ≡ true) ↔ (i ≡ j)
==ℤ_iff (pos m) (pos n) = (λ h. ap pos (ground arith), λ e. ground (arith, ap size e))
==ℤ_iff (pos m) (negsuc n) = (λ h. absurd (ground arith), λ e. sym (ap is_pos e))
==ℤ_iff (negsuc m) (pos n) = (λ h. absurd (ground arith), λ e. ap is_pos e)
==ℤ_iff (negsuc m) (negsuc n) = (λ h. ap negsuc (ground arith), λ e. ground (arith, ap size e))
