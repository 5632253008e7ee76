-- ===== src/Ffi/Clients.antt =====
-- ffi/ffi.go: the durations of a client that `NewClient` returns.
use ipfs_mobile.Prelude.{ℕ, ◌*◌, ◌≡◌, refl, true, inl, inr, List, ap, ◌∙◌}
use Prim.Native.Nat.{min}
use ipfs_mobile.Prelude.Tests.{Bool-cases}
use ipfs_mobile.Prelude.Int.{ℤ, pos, pos_part}
use ipfs_mobile.Storage.{max_i64}
use ipfs_mobile.Errors.{Result, ok, err}
use ipfs_mobile.Durations.{is_positive, or_default, millisecond, milliseconds}
use ipfs_mobile.Durations.Laws.{milliseconds-exact}
use ipfs_mobile.Setup.{Libraries, NewClient, default_timeout}
use ipfs_mobile.Setup.Routes.{err-ne-ok}
use ipfs_mobile.Setup.Timeouts.{Timed, new_client-Timed}
use ipfs_mobile.Ffi.{ClientConfig, inner_config, with_seed, identity_seed, new_ffi_client}

or_default-positive : (v d : ℤ) → is_positive d ≡ true → is_positive (or_default v d) ≡ true
unfolding or_default
or_default-positive v d h = elim (Bool-cases (is_positive v)) [
  | inl p ↦ rw (p, p)
  | inr n ↦ rw (n, h)
]

with_seed-Timed :
    (l : Libraries) (c : ClientConfig) (n : NewClient) (r : Result (List ℕ))
    → with_seed l c r ≡ ok n
    → (seed : List ℕ) × Timed (inner_config c seed) n
with_seed-Timed l c n (err e) h = absurd (err-ne-ok e n h)
with_seed-Timed l c n (ok seed) h = (seed, new_client-Timed l (inner_config c seed) n h)

-- The client that NewClient makes of milliseconds has a positive timeout for its primary phase and
-- for each step of its fallback, whatever the configuration, and its idle timeout is the exact
-- number of nanoseconds, capped at the largest int64, with 0 for a negative one.
pub new_ffi_client-positive :
    (l : Libraries) (c : ClientConfig) (n : NewClient)
    → new_ffi_client l c ≡ ok n
    → (is_positive n.primary_timeout ≡ true)
      × (is_positive n.fallback_step_timeout ≡ true)
      × (n.idle ≡ pos (min (pos_part c.idle_timeout * millisecond) max_i64))
unfolding new_ffi_client
new_ffi_client-positive l c n h =
    let (seed, t) = with_seed-Timed l c n (identity_seed c.identity_seed_hex) h in
    (
      ap is_positive t.primary_set
          ∙ or_default-positive (milliseconds c.primary_timeout) default_timeout refl,
      ap is_positive t.step_set
          ∙ or_default-positive (milliseconds c.fallback_step_timeout) default_timeout refl,
      t.idle_kept ∙ milliseconds-exact c.idle_timeout,
    )
