-- ===== src/Retrieval/Deadline.antt =====
-- client/client.go: the deadline of the primary phase leaves the fallback some of the caller's time.
use ipfs_mobile.Prelude.{ℕ, ◌≡◌, ◌≤◌, ◌<◌, ◌∙◌, ap, true, inl, inr, some, arith}
use ipfs_mobile.Prelude.Tests.{ltb, Bool-cases}
use ipfs_mobile.Prelude.Int.{ℤ, pos}
use ipfs_mobile.Retrieval.{Settings, fallback_available, shortened, primary_deadline}

-- Where the fallback is available, the caller's deadline is not over and the share taken of the
-- time that is left is less than that time, the deadline of the primary phase comes before the
-- caller's and is not longer than the primary timeout.
pub primary_deadline_bounds :
    (share : ℤ → ℤ) (c : Settings) (t s remaining : ℕ)
    → fallback_available c ≡ true
    → c.primary_timeout ≡ pos t
    → 0 < remaining
    → share (pos remaining) ≡ pos s
    → s < remaining
    → (b : ℕ) × (primary_deadline share c (some (pos remaining)) ≡ some (pos b))
      × (b ≤ t)
      × (b < remaining)
unfolding primary_deadline
primary_deadline_bounds share c t s remaining on budget left shared less =
    elim (Bool-cases (ltb s t)) [
      | inl below ↦ (s, start ∙ ap some (ground arith), ground arith, less)
      | inr above ↦ (t, start ∙ ap some (ground arith), ground arith, ground arith)
    ]
  where
    start :
        primary_deadline share c (some (pos remaining))
        ≡ some (shortened (λ r. pos s) (pos t) (pos remaining))
    start = rw (on, budget, shared)
