-- ===== src/Durations/Tests.antt =====
-- Durations at the values that the Kotlin wrapper and a hostile gateway send.
use ipfs_mobile.Prelude.{ℕ, ◌*◌, ◌≡◌, refl, arith}
use Prim.Native.Nat.{min}
use ipfs_mobile.Prelude.Int.{pos}
use ipfs_mobile.Durations.{Backoff, seconds, second, retry_after_delay}
use ipfs_mobile.Durations.Laws.{retry_after_delay-seconds, retry_after_delay_wrapped}

abbrev backoff : Backoff
backoff = record { connect_failure = 60 * second; longest = 600 * second }

-- The number of seconds whose nanoseconds are 290448384 more than 2 ^ 64.
abbrev hostile : ℕ
hostile = 18_446_744_074

retry_after_delay-seconds_example :
    retry_after_delay backoff (seconds (pos 7)) ≡ pos (min (7 * second) (600 * second))
retry_after_delay-seconds_example = retry_after_delay-seconds backoff 7 (omega arith) (omega arith)

retry_after_delay_wrapped_example :
    retry_after_delay backoff (seconds (pos hostile)) ≡ pos 290_448_384
retry_after_delay_wrapped_example =
    retry_after_delay_wrapped backoff hostile 290_448_384 (omega arith) (omega arith) refl
      (omega arith) (omega arith) (omega arith)
