-- ===== src/Storage/Fitting.antt =====
-- client/fallback.go: a body that fits is written whole.
use ipfs_mobile.Prelude.{
  ℕ, zero, suc, ◌+◌, ◌-◌, ◌≡◌, ◌≤◌, ◌<◌, ◌⊎◌, inl, inr, refl, true, false, none, [], ◌∷◌, arith, ap,
}
use ipfs_mobile.Prelude.Tests.{ltb, leb}
use ipfs_mobile.Prelude.Lists.{length}
use ipfs_mobile.Prelude.Text.{Text}
use ipfs_mobile.Prelude.Dict.{lookup}
use ipfs_mobile.Prelude.Int.{ℤ, pos, ltb_ℤ}
use ipfs_mobile.Storage.{
  Files, Body, Written, file, put, take, limited, inc_i64, max_i64, write_limited, remaining,
  checked,
}
use ipfs_mobile.Storage.Limits.{remaining-pos, remaining_none}

take_longer : (n : ℕ) (b : Text) → length b < n → take n b ≡ b
take_longer zero b h = absurd (omega arith)
take_longer (suc n) [] h = refl
take_longer (suc n) (x ∷ b) h = ap (◌∷◌ x) (take_longer n b (omega arith))

-- A counter at `written` has room for so many bytes more: the limit is off, or positive, below the
-- largest int64, and not exceeded by them.
abbrev pub Room : ℤ → ℕ → ℕ → Type 0
Room limit written bytes =
    (ltb_ℤ (pos 0) limit ≡ false)
    ⊎ ((l : ℕ) × (limit ≡ pos l) × (0 < l) × (l < max_i64) × (written + bytes ≤ l))

abbrev pub whole : Files → Text → Text → Written
whole fs path bytes = record {
  files = put path (file bytes) fs;
  count = length bytes;
  failure = none;
}

module _ (fs : Files) (path : Text) (bytes : Text) where
  abbrev body : Body
  body = record { bytes = bytes; failure = none }

  write_limited-fits :
      (n : ℕ)
      → lookup path fs.entries ≡ none
      → fs.refuses path ≡ none
      → length bytes ≤ n
      → n < max_i64
      → write_limited fs path body (pos n) ≡ whole fs path bytes
  unfolding write_limited limited inc_i64
  write_limited-fits n free willing fits small =
      let t : take (n + 1) bytes ≡ bytes = take_longer (n + 1) bytes (omega arith) in
      let up : ltb (length bytes) (n + 1) ≡ true = ground arith in
      let inside : ltb_ℤ (pos n) (pos (length bytes)) ≡ false = ground arith in
      let low : leb max_i64 n ≡ false = ground arith in
      let fine : checked (pos n) (whole fs path bytes) none ≡ whole fs path bytes =
        rw inside refl in
      rw (free, willing, low, t, up) fine

  -- Where a path is free and not refused, a body that arrives without an error and for which there
  -- is room is written whole and counted whole.
  pub write_limited-Room :
      (limit : ℤ) (written : ℕ)
      → lookup path fs.entries ≡ none
      → fs.refuses path ≡ none
      → Room limit written (length bytes)
      → write_limited fs path body (remaining limit written) ≡ whole fs path bytes
  write_limited-Room limit written free willing (inl off) =
      rw (remaining_none limit written off) (unfold write_limited in rw (free, willing) refl)
  write_limited-Room limit written free willing (inr (l, e, p, s, le)) =
      rw (e, remaining-pos l written p (omega arith))
        (write_limited-fits (l - written) free willing (omega arith) (omega arith))
