-- ===== src/Durations.antt =====
-- client/client.go, client/fallback.go and ffi/ffi.go: the arithmetic of time.Duration, a signed
-- 64-bit count of nanoseconds, where the program converts, defaults or bounds one.
use ipfs_mobile.Prelude.{
  ℕ, ◌+◌, ◌-◌, ◌*◌, ◌/◌, ◌%◌, ◌^◌, Bool, true, false, ◌||◌, not, Option, none, some,
}
use ipfs_mobile.Prelude.Tests.{ltb, leb, if◌then◌else◌}
use ipfs_mobile.Prelude.Int.{ℤ, pos, negsuc, ltb_ℤ, pos_part}
use ipfs_mobile.Storage.{max_i64}
pub mod Laws
pub mod Tests

-- The signed value of a 64-bit pattern.
abbrev pub signed : ℕ → ℤ
signed x = if leb x max_i64 then pos x else negsuc (2 ^ 64 - 1 - x)

-- The bit pattern of a signed value.
abbrev pub pattern_of : ℤ → ℕ
pattern_of (pos n) = n
pattern_of (negsuc n) = 2 ^ 64 - 1 - n

-- `a * b` on an int64, for a constant `b` that is not negative.
unfoldable pub times_i64 : ℤ → ℕ → ℤ
times_i64 a b = signed (pattern_of a * b % 2 ^ 64)

abbrev pub millisecond : ℕ
millisecond = 1_000_000

abbrev pub second : ℕ
second = 1_000_000_000

abbrev pub is_positive : ℤ → Bool
is_positive v = ltb_ℤ (pos 0) v

abbrev pub max_milliseconds : ℕ
max_milliseconds = max_i64 / millisecond

-- `milliseconds`.
unfoldable pub milliseconds : ℤ → ℤ
unfolding times_i64
milliseconds value =
    if not (is_positive value)
    then pos 0
    else if ltb_ℤ (pos max_milliseconds) value
    then pos max_i64
    else times_i64 value millisecond

-- `withTimeout`: the deadline from now, or no deadline.
unfoldable pub with_timeout : ℤ → Option ℤ
unfolding times_i64
with_timeout timeout =
    if not (is_positive timeout) || ltb_ℤ (pos max_milliseconds) timeout
    then none
    else some (times_i64 timeout millisecond)

-- `orDefault`.
unfoldable pub or_default : ℤ → ℤ → ℤ
or_default configured fallback = if not (is_positive configured) then fallback else configured

-- What a Retry-After header parses to: an int64 of seconds, a date so long from now, or neither.
pub data RetryAfter : Type 0 where
  seconds : ℤ → RetryAfter
  date : ℤ → RetryAfter
  unusable : RetryAfter

abbrev pub asked_wait : RetryAfter → ℤ
asked_wait (seconds s) = times_i64 s second
asked_wait (date d) = d
asked_wait unusable = pos 0

-- httpnet's `DefaultConnectFailureBackoff` and `DefaultMaxBackoff`, which another module defines.
pub record Backoff : Type 0 where
  pub connect_failure : ℕ
  pub longest : ℕ

-- `retryAfterDelay`.
unfoldable pub retry_after_delay : Backoff → RetryAfter → ℤ
unfolding times_i64
retry_after_delay b header =
    let wait = asked_wait header in
    if not (is_positive wait)
    then pos b.connect_failure
    else if ltb_ℤ wait (pos b.longest)
    then wait
    else pos b.longest
