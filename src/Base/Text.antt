-- ===== src/Base/Text.antt =====
-- `text.slice(0, n)`. Characters stand for the UTF-16 units of the program.
use Prim.Native.Nat.{ℕ, zero, suc, ◌≤◌}
use Prim.Native.String.{String, count}
use native.Mathlib.Omega.{arith}
use text.Mathlib.TextLemmas.{length-cons, length-nil}

abbrev pub take_text : ℕ → String → String
take_text zero s = String.[]
take_text (suc n) String.[] = String.[]
take_text (suc n) (String.◌∷◌ c s) = String.◌∷◌ c (take_text n s)

pub count-take_text : (n : ℕ) (s : String) → count (take_text n s) ≤ n
count-take_text zero s = omega (arith, length-nil)
count-take_text (suc n) String.[] = omega (arith, length-nil)
count-take_text (suc n) (String.◌∷◌ c s) =
    omega (arith, length-cons c (take_text n s), count-take_text n s)
