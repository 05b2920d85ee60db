-- ===== src/Base/Decimal.antt =====
-- `String(n)` of a natural number.
use Prim.Native.Nat.{ℕ, zero, suc, ◌/◌, ◌%◌, ◌<◌}
use Prim.Native.String.{String, ◌++◌ as append_text}
use mathlib.Core.Path.{◌≡◌, refl}
use mathlib.Core.Logic.{inl, inr}
use native.Mathlib.Omega.{arith}
use mathlib.Core.List.{[], ◌∷◌}
use trams_assignment.Base.Lists.{get_elem?}
use trams_assignment.Base.Numbers.{or_default}
use trams_assignment.Base.Tests.{leb, if◌then◌else◌, Bool-cases}

abbrev pub digit : ℕ → String
digit n =
    or_default (get_elem? ("0" ∷ "1" ∷ "2" ∷ "3" ∷ "4" ∷ "5" ∷ "6" ∷ "7" ∷ "8" ∷ "9" ∷ []) n) ""

-- The digits of `n` before `rest`, at most `fuel` of them.
abbrev pub digits_before : ℕ → ℕ → String → String
digits_before zero n rest = rest
digits_before (suc fuel) n rest =
    let more = digits_before fuel (n / 10) (append_text (digit (n % 10)) rest) in
    if leb n 9 then append_text (digit (n % 10)) rest else more

-- Ten to the power of the fuel is above the number, which is enough.
abbrev pub to_text : ℕ → String
to_text n = digits_before (suc n) n ""

-- More fuel than the number changes nothing.
pub digits_before-suc :
    (fuel n : ℕ) (rest : String)
    → n < fuel
    → digits_before (suc fuel) n rest ≡ digits_before fuel n rest
digits_before-suc zero n rest h = ground (arith, h)
digits_before-suc (suc fuel) n rest h = elim (Bool-cases (leb n 9)) [
  | inl small ↦ rw small refl
  | inr large ↦
      rw large (digits_before-suc fuel (n / 10) (append_text (digit (n % 10)) rest) (ground arith))
]
