-- ===== src/Prelude/Ints.antt =====
-- The machine integers of Go on a 64-bit platform: `uint64` as a native number below 2 ^ 64, and
-- `int` as a signed number between -2 ^ 63 and 2 ^ 63 - 1. Their increments wrap.
use Prim.Native.Nat.{ℕ, zero, suc, ◌+◌, ◌%◌}
use mathlib.Core.Bool.{Bool, true, false}
use ago.Prelude.Tests.{ltb, ◌==◌, if◌then◌else◌}

-- `v++` on a `uint64`.
abbrev pub inc_u64 : ℕ → ℕ
inc_u64 v = (v + 1) % 18446744073709551616

-- `negsuc n` is -(n + 1).
pub data ℤ : Type 0 where
  pos : ℕ → ℤ
  negsuc : ℕ → ℤ

-- `v++` and `v + 1` on an `int`: the largest value is followed by the smallest.
abbrev pub inc_int : ℤ → ℤ
inc_int (pos n) = if n == 9223372036854775807 then negsuc 9223372036854775807 else pos (n + 1)
inc_int (negsuc zero) = pos 0
inc_int (negsuc (suc n)) = negsuc n

-- `a < b`.
abbrev pub ltb_int : ℤ → ℤ → Bool
ltb_int (pos a) (pos b) = ltb a b
ltb_int (pos a) (negsuc b) = false
ltb_int (negsuc a) (pos b) = true
ltb_int (negsuc a) (negsuc b) = ltb b a

-- `a == b`.
abbrev pub eq_int : ℤ → ℤ → Bool
eq_int (pos a) (pos b) = a == b
eq_int (pos a) (negsuc b) = false
eq_int (negsuc a) (pos b) = false
eq_int (negsuc a) (negsuc b) = a == b
