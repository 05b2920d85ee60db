-- ===== src/Relay/Retry.antt =====
-- The delay before another attempt to publish: `retryDelay`.
use native.Mathlib.Nat.{pow-le-pow_right}
use trams_assignment.Base.{ℕ, zero, suc, ◌-◌, ◌*◌, ◌^◌, ◌≤◌, ◌<◌, ◌≡◌, refl, arith, min}
use trams_assignment.Relay.{retry_delay}

power_mono : (a b : ℕ) → a ≤ b → 2 ^ min (a - 1) 10 ≤ 2 ^ min (b - 1) 10
power_mono a b h =
    pow-le-pow_right {n = 2} (omega arith) {i = min (a - 1) 10} {j = min (b - 1) 10} (omega arith)

-- The delay is at least a second and at most a minute.
pub retry_delay_bounds :
    (attempt : ℕ) → (1000 ≤ retry_delay attempt) × (retry_delay attempt ≤ 60000)
unfolding retry_delay
retry_delay_bounds attempt =
    let p : 2 ^ 0 ≤ 2 ^ min (attempt - 1) 10 =
      pow-le-pow_right {n = 2} (omega arith) {i = 0} {j = min (attempt - 1) 10} (omega arith) in
    (omega arith, omega arith)

-- It grows with the attempts.
pub retry_delay_mono : (a b : ℕ) → a ≤ b → retry_delay a ≤ retry_delay b
unfolding retry_delay
retry_delay_mono a b h = omega (arith, power_mono a b h)

-- From the seventh attempt on it is a minute.
pub retry_delay_capped : (attempt : ℕ) → 7 ≤ attempt → retry_delay attempt ≡ 60000
unfolding retry_delay
retry_delay_capped attempt h =
    let p : 2 ^ 6 ≤ 2 ^ min (attempt - 1) 10 =
      pow-le-pow_right {n = 2} (omega arith) {i = 6} {j = min (attempt - 1) 10} (omega arith) in
    omega arith

-- Until then each attempt waits twice as long as the one before, a second at first.
pub retry_delay_doubles :
    (attempt : ℕ) → 1 ≤ attempt → attempt < 6 → retry_delay (suc attempt) ≡ 2 * retry_delay attempt
unfolding retry_delay
retry_delay_doubles zero h k = absurd (omega arith)
retry_delay_doubles (suc zero) h k = refl
retry_delay_doubles (suc (suc zero)) h k = refl
retry_delay_doubles (suc (suc (suc zero))) h k = refl
retry_delay_doubles (suc (suc (suc (suc zero)))) h k = refl
retry_delay_doubles (suc (suc (suc (suc (suc zero))))) h k = refl
retry_delay_doubles (suc (suc (suc (suc (suc (suc n)))))) h k = absurd (omega arith)

-- Bounded exponential backoff: the first delay is a second, each of the next five is twice the one
-- before, every later one is a minute, and none is shorter than one before it.
pub retry_delay-IsBackoff :
    (retry_delay 1 ≡ 1000)
    × ((attempt : ℕ)
        → 1 ≤ attempt
        → attempt < 6
        → retry_delay (suc attempt) ≡ 2 * retry_delay attempt)
    × ((attempt : ℕ) → 7 ≤ attempt → retry_delay attempt ≡ 60000)
    × ((a b : ℕ) → a ≤ b → retry_delay a ≤ retry_delay b)
unfolding retry_delay
retry_delay-IsBackoff = (refl, retry_delay_doubles, retry_delay_capped, retry_delay_mono)
