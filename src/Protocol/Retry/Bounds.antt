-- ===== src/Protocol/Retry/Bounds.antt =====
-- The backoff is the capped exponential that its comment in protocol.go states.
use Prim.Native.Nat.{min}
use native.Mathlib.Nat.{pow-suc, zero-add, suc-add}
use ago.Prelude.{ℕ, zero, suc, ◌+◌, ◌-◌, ◌*◌, ◌^◌, ◌≤◌, ◌≡◌, refl, ◌∙◌, arith}
use ago.Prelude.Ints.{ℤ, pos, negsuc}
use ago.Clock.{second}
use ago.Protocol.Retry.{retry_delay, max_retry_delay}

negative : (m : ℕ) → retry_delay (negsuc m) ≡ retry_delay (pos 0)
unfolding retry_delay
negative m = refl

pow_grows : (n k : ℕ) → 2 ^ n ≤ 2 ^ (k + n)
pow_grows n zero = rw zero-add (omega arith)
pow_grows n (suc k) = rw (suc-add, pow-suc) (omega (arith, pow_grows n k))

pow_mono : (a b : ℕ) → a ≤ b → 2 ^ a ≤ 2 ^ b
pow_mono a b h = let e : b ≡ (b - a) + a = omega arith in rw e (pow_grows a (b - a))

from_zero : (n : ℕ) → retry_delay (pos n) ≡ min (2 ^ n * (2 * second)) max_retry_delay
unfolding retry_delay
from_zero n = ground (arith, pow_mono 16 n)

-- The attempt number that counts: a negative one is 0.
abbrev pub at_least_zero : ℤ → ℕ
at_least_zero (pos n) = n
at_least_zero (negsuc n) = 0

-- For every attempt number n the delay is the smaller of 2 ^ n times two seconds and 30 seconds, also
-- where the code answers without shifting, with 0 in place of a negative n.
pub retry_delay-eq-min :
    (n : ℤ) → retry_delay n ≡ min (2 ^ at_least_zero n * (2 * second)) max_retry_delay
retry_delay-eq-min (pos n) = from_zero n
retry_delay-eq-min (negsuc m) = negative m ∙ from_zero 0

-- A negative number is treated as 0, the delay lies between 2 and 30 seconds, and a later attempt
-- never waits for less.
pub retry_delay_bounds :
    (m n : ℕ)
    → m ≤ n
    → (retry_delay (negsuc m) ≡ retry_delay (pos 0))
      × (2 * second ≤ retry_delay (pos m))
      × (retry_delay (pos m) ≤ retry_delay (pos n))
      × (retry_delay (pos n) ≤ 30 * second)
retry_delay_bounds m n h = (
  negative m,
  omega (arith, from_zero m, pow_mono 0 m),
  omega (arith, from_zero m, from_zero n, pow_mono m n h),
  omega (arith, from_zero n),
)
