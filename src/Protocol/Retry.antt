-- ===== src/Protocol/Retry.antt =====
-- The bounds on automatic retry and the backoff of internal/agoboardprotocol/protocol.go.
pub mod Bounds
use ago.Prelude.{ℕ, ◌*◌, ◌^◌, ltb, if◌then◌else◌}
use ago.Prelude.Ints.{ℤ, pos, negsuc}
use ago.Clock.{second}

abbrev pub schema_version : ℤ
schema_version = pos 4

abbrev pub max_attempts : ℤ
max_attempts = pos 3

abbrev pub max_verification_attempts : ℤ
max_verification_attempts = pos 10

abbrev pub max_gate_repairs : ℤ
max_gate_repairs = pos 2

abbrev pub max_gate_unavailable : ℤ
max_gate_unavailable = pos 5

abbrev pub max_retry_delay : ℕ
max_retry_delay = 30 * second

-- `if attemptNumber < 0 { attemptNumber = 0 }`.
abbrev clamp : ℤ → ℕ
clamp (pos n) = n
clamp (negsuc n) = 0

-- A `time.Duration` in nanoseconds. Below the guard the shift gives at most 2 ^ 16, so that the
-- product stays far below 2 ^ 63.
unfoldable pub retry_delay : ℤ → ℕ
retry_delay attempt_number =
    let n = clamp attempt_number in
    let delay = 2 ^ n * 2 * second in
    if ltb 16 n
    then max_retry_delay
    else if ltb max_retry_delay delay
    then max_retry_delay
    else delay
