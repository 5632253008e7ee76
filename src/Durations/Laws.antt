-- ===== src/Durations/Laws.antt =====
-- The conversions of durations neither wrap around nor leave their bounds, but for one.
use ipfs_mobile.Prelude.{
  not, zero, suc, ℕ, ◌*◌, ◌%◌, ◌^◌, ◌≡◌, ◌≤◌, ◌<◌, ◌⊎◌, inl, refl, none, some, arith,
}
use native.Mathlib.Nat.{mod-eq_of_lt}
use native.Mathlib.Decide.{dec_lt}
use Prim.Native.Nat.{min, max}
use ipfs_mobile.Prelude.Tests.{if◌then◌else◌}
use ipfs_mobile.Prelude.Int.{ℤ, pos, negsuc, ltb_ℤ, pos_part}
use ipfs_mobile.Storage.{max_i64}
use ipfs_mobile.Durations.{
  times_i64, millisecond, second, milliseconds, with_timeout, RetryAfter, seconds, asked_wait,
  Backoff, retry_after_delay,
}

times_i64-exact : (v b : ℕ) → v * b ≤ max_i64 → times_i64 (pos v) b ≡ pos (v * b)
unfolding times_i64
times_i64-exact v b h = rw (mod-eq_of_lt {n = v * b} {m = 2 ^ 64} (omega arith)) (ground arith)

-- milliseconds gives the nanoseconds of a count of milliseconds, capped at the largest int64, and
-- nothing below one for a negative count.
pub milliseconds-exact : (v : ℤ) → milliseconds v ≡ pos (min (pos_part v * millisecond) max_i64)
unfolding milliseconds
milliseconds-exact (negsuc n) = ground arith
milliseconds-exact (pos v) = ground (arith, times_i64-exact v millisecond)

-- withTimeout sets the exact deadline for a positive count of milliseconds that fits a duration,
-- and no deadline for any other.
pub with_timeout-exact :
    (t : ℤ)
    → ((with_timeout t ≡ none) × ((pos_part t ≡ 0) ⊎ (max_i64 < pos_part t * millisecond)))
      ⊎ ((with_timeout t ≡ some (pos (pos_part t * millisecond)))
          × (0 < pos_part t)
          × (pos_part t * millisecond ≤ max_i64))
unfolding with_timeout
with_timeout-exact (negsuc n) = inl (ground arith, inl refl)
with_timeout-exact (pos v) = ground (arith, times_i64-exact v millisecond)

-- With positive backoffs, retryAfterDelay gives a positive wait that is at most the greater of the
-- two, whatever the header.
pub retry_after_delay_bounds :
    (b : Backoff) (h : RetryAfter)
    → 0 < b.connect_failure
    → 0 < b.longest
    → (w : ℕ) × (retry_after_delay b h ≡ pos w) × (0 < w) × (w ≤ max b.connect_failure b.longest)
unfolding retry_after_delay
retry_after_delay_bounds b h p q = go (asked_wait h)
  where
    go :
        (wait : ℤ)
        → (w : ℕ) × ((if not (ltb_ℤ (pos 0) wait)
              then pos b.connect_failure
              else if ltb_ℤ wait (pos b.longest)
              then wait
              else pos b.longest)
            ≡ pos w)
          × (0 < w)
          × (w ≤ max b.connect_failure b.longest)
    go (negsuc n) = (b.connect_failure, ground arith, p, omega arith)
    go (pos zero) = (b.connect_failure, ground arith, p, omega arith)
    go (pos (suc n)) = elim (dec_lt (suc n) b.longest) [
      | yes l ↦ (suc n, ground arith, omega arith, omega arith)
      | no l ↦ (b.longest, ground arith, q, omega arith)
    ]

-- A number of seconds whose nanoseconds an int64 holds is waited for exactly, up to the longest
-- backoff.
pub retry_after_delay-seconds :
    (b : Backoff) (s : ℕ)
    → 0 < s
    → s * second ≤ max_i64
    → retry_after_delay b (seconds (pos s)) ≡ pos (min (s * second) b.longest)
unfolding retry_after_delay
retry_after_delay-seconds b s p h = rw (times_i64-exact s second h) (ground arith)

-- For a Retry-After of so many seconds that they fit an int64 and their nanoseconds do not,
-- retryAfterDelay gives the remainder of the nanoseconds modulo 2^64 as the wait, where that is
-- positive, fits an int64 and is less than the longest backoff.
pub retry_after_delay_wrapped :
    (b : Backoff) (s w : ℕ)
    → max_i64 < s * second
    → s < 2 ^ 63
    → s * second % 2 ^ 64 ≡ w
    → 0 < w
    → w ≤ max_i64
    → w < b.longest
    → retry_after_delay b (seconds (pos s)) ≡ pos w
unfolding retry_after_delay times_i64
retry_after_delay_wrapped b s w big fits rest p small h = rw rest (ground arith)
