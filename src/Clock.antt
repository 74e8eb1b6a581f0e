-- ===== src/Clock.antt =====
-- `time.Time` and `time.Duration` of Go's standard library, as far as the board uses them.
use ago.Prelude.{ℕ, ◌+◌, ◌-◌, ◌*◌, ◌%◌, ◌^◌, Bool, true, ltb, ◌==◌, if◌then◌else◌}
use ago.Prelude.Ints.{ℤ, pos, negsuc}

-- An instant in nanoseconds since the earliest instant that a `time.Time` can hold, and whether the
-- value carries the location UTC. (No other location is ever compared or printed by the board.)
pub record Time : Type 0 where
  pub instant : ℕ
  pub utc : Bool

-- `time.Time{}`: 2 ^ 63 seconds after the earliest instant, in UTC.
abbrev pub zero_time : Time
zero_time = record { instant = 9223372036854775808 * 1000000000; utc = true }

-- `t.IsZero()`.
unfoldable pub is_zero : Time → Bool
is_zero t = t.instant == 9223372036854775808 * 1000000000

-- `t.Before(u)`.
abbrev pub before : Time → Time → Bool
before t u = ltb t.instant u.instant

-- `t.After(u)`.
abbrev pub after : Time → Time → Bool
after t u = ltb u.instant t.instant

-- `t.UTC()`: the same instant in the location UTC.
abbrev pub to_utc : Time → Time
to_utc t = record t { utc = true }

-- `time.Second`, in nanoseconds.
abbrev pub second : ℕ
second = 1000000000

-- `t.Add(d)` for a duration that is not negative, without an overflow of the range of `time.Time`.
abbrev pub add : Time → ℕ → Time
add t d = record t { instant = t.instant + d }

-- 1970-01-01 in UTC.
abbrev pub unix_epoch : ℕ
unix_epoch = (9223372036854775808 + 62135596800) * 1000000000

-- `t.UnixNano()`: 64 bits with a sign, which wrap outside of the years 1678 to 2262.
unfoldable pub unix_nano : Time → ℤ
unix_nano t =
    let n = (t.instant + 2 ^ 128 - unix_epoch) % 2 ^ 64 in
    if ltb n (2 ^ 63) then pos n else negsuc (2 ^ 64 - n - 1)

-- `time.Unix(0, n).UTC()`.
unfoldable pub from_unix_nano : ℤ → Time
from_unix_nano (pos n) = record { instant = unix_epoch + n; utc = true }
from_unix_nano (negsuc n) = record { instant = unix_epoch - n - 1; utc = true }
