-- ===== src/Storage/Limits.antt =====
-- How many bytes `writeLimited` lets through.
use ipfs_mobile.Prelude.{
  ap, sym, ◌∙◌, ℕ, zero, suc, ◌+◌, ◌-◌, ◌≡◌, ◌≤◌, ◌<◌, ◌⊎◌, inl, inr, refl, false, Option, none,
  some, [], ◌∷◌, arith,
}
use ipfs_mobile.Prelude.Lists.{length}
use ipfs_mobile.Prelude.Text.{Text}
use ipfs_mobile.Prelude.Dict.{lookup}
use ipfs_mobile.Prelude.Int.{ℤ, pos, negsuc, ltb_ℤ}
use ipfs_mobile.Errors.{Error, size_limit_with_totals}
use ipfs_mobile.Storage.{
  Files, Entry, Body, Written, file, put, take, limited, inc_i64, max_i64, write_limited,
  write_body, write_unless, may_create, copied, checked, remaining,
}

length-take-le : (n : ℕ) (b : Text) → length (take n b) ≤ n
length-take-le zero b = omega arith
length-take-le (suc n) [] = omega arith
length-take-le (suc n) (x ∷ b) = omega (arith, length-take-le n b)

take_all : (n : ℕ) (b : Text) → length (take n b) < n → take n b ≡ b
take_all zero b h = absurd (omega arith)
take_all (suc n) [] h = refl
take_all (suc n) (x ∷ b) h = ap (λ t. x ∷ t) (take_all n b (omega arith))

length-take-min : (n : ℕ) (b : Text) → (length b < n) ⊎ (length (take n b) ≡ n)
length-take-min zero b = inr refl
length-take-min (suc n) [] = inl (omega arith)
length-take-min (suc n) (x ∷ b) = ground (arith, length-take-min n b)

inc_i64-pos : (n : ℕ) → n < max_i64 → inc_i64 (pos n) ≡ pos (n + 1)
unfolding inc_i64
inc_i64-pos n h = ground arith

-- The bytes that a limit lets through, and the error that comes with them.
limited_bytes :
    (n : ℕ) (b : Body)
    → let m = limited (pos (n + 1)) b in
      (length m.bytes ≤ n + 1)
      × ((length m.bytes ≤ n → (m.bytes ≡ b.bytes) × (m.failure ≡ b.failure)))
unfolding limited
limited_bytes n b = (
  length-take-le (n + 1) b.bytes,
  λ h. (
    take_all (n + 1) b.bytes (omega arith),
    let all = take_all (n + 1) b.bytes (omega arith) in ground (arith, ap length all),
  ),
)

checked-none :
    (n : ℕ) (w : Written) (e : Option Error)
    → w.failure ≡ e
    → (checked (pos n) w e).failure ≡ none
    → (w.count ≤ n) × (w.failure ≡ none) × (checked (pos n) w e ≡ w)
checked-none n w (some e) h k = cc
checked-none n w none h k = ground arith

checked-count : (n : ℕ) (w : Written) (e : Option Error) → (checked (pos n) w e).count ≡ w.count
checked-count n w (some e) = refl
checked-count n w none = ground arith

write_body-le :
    (fs : Files) (path : Text) (b : Body) (n : ℕ)
    → n < max_i64
    → (write_body fs path b (pos n)).count ≤ n + 1
write_body-le fs path b n h = rw (inc_i64-pos n h) (
    let m = limited (pos (n + 1)) b in
    let w = copied fs path m in omega (arith, checked-count n w w.failure, (limited_bytes n b).0))

write_body-whole :
    (fs : Files) (path : Text) (b : Body) (n : ℕ)
    → n < max_i64
    → (write_body fs path b (pos n)).failure ≡ none
    → let w = write_body fs path b (pos n) in
      (w.count ≤ n)
      × (w.count ≡ length b.bytes)
      × (b.failure ≡ none)
      × (w.files ≡ put path (file b.bytes) fs)
write_body-whole fs path b n h = rw (inc_i64-pos n h) λ k.
    (let m = limited (pos (n + 1)) b in
      let w = copied fs path m in
      let (le, quiet, same) = checked-none n w w.failure refl k in
      let (bytes, failure) = (limited_bytes n b).1 le in
      (
        omega (arith, checked-count n w w.failure),
        checked-count n w w.failure ∙ ap length bytes,
        sym failure ∙ quiet,
        ap (λ v. v.files) same ∙ ap (λ t. put path (file t) fs) bytes,
      ))

-- With a limit below the largest int64, at most one byte more than the limit reaches the disk,
-- whatever arrives and however the write ends.
pub write_limited-le :
    (fs : Files) (path : Text) (b : Body) (n : ℕ)
    → n < max_i64
    → (write_limited fs path b (pos n)).count ≤ n + 1
unfolding write_limited
write_limited-le fs path b n h = go (may_create fs path (fs.refuses path) (lookup path fs.entries))
  where
    go : (e : Option Error) → (write_unless e fs path b (pos n)).count ≤ n + 1
    go (some e) = omega arith
    go none = write_body-le fs path b n h

-- With a limit below the largest int64, a writeLimited that reports no error has put the whole
-- body, which ended without an error and is within the limit, into a new file, and counts its
-- length.
pub write_limited-whole :
    (fs : Files) (path : Text) (b : Body) (n : ℕ)
    → n < max_i64
    → (write_limited fs path b (pos n)).failure ≡ none
    → let w = write_limited fs path b (pos n) in
      (w.count ≤ n)
      × (w.count ≡ length b.bytes)
      × (b.failure ≡ none)
      × (w.files ≡ put path (file b.bytes) fs)
      × (lookup path fs.entries ≡ none)
unfolding write_limited
write_limited-whole fs path b n h = go (lookup path fs.entries) (fs.refuses path) refl
  where
    go :
        (o : Option Entry) (r : Option Error)
        → lookup path fs.entries ≡ o
        → (write_unless (may_create fs path r o) fs path b (pos n)).failure ≡ none
        → let w = write_unless (may_create fs path r o) fs path b (pos n) in
          (w.count ≤ n)
          × (w.count ≡ length b.bytes)
          × (b.failure ≡ none)
          × (w.files ≡ put path (file b.bytes) fs)
          × (lookup path fs.entries ≡ none)
    go (some o) r there k = cc
    go none (some e) there k = cc
    go none none there k =
        let (le, all, quiet, fs') = write_body-whole fs path b n h k in (le, all, quiet, fs', there)

-- Without a limit the whole body is written, and its error is the result.
pub write_limited-unlimited :
    (fs : Files) (path : Text) (b : Body) (k : ℕ)
    → (write_limited fs path b (negsuc k)).failure ≡ none
    → let w = write_limited fs path b (negsuc k) in
      (w.count ≡ length b.bytes)
      × (b.failure ≡ none)
      × (w.files ≡ put path (file b.bytes) fs)
      × (lookup path fs.entries ≡ none)
unfolding write_limited
write_limited-unlimited fs path b k = go (lookup path fs.entries) (fs.refuses path) refl
  where
    go :
        (o : Option Entry) (r : Option Error)
        → lookup path fs.entries ≡ o
        → (write_unless (may_create fs path r o) fs path b (negsuc k)).failure ≡ none
        → let w = write_unless (may_create fs path r o) fs path b (negsuc k) in
          (w.count ≡ length b.bytes)
          × (b.failure ≡ none)
          × (w.files ≡ put path (file b.bytes) fs)
          × (lookup path fs.entries ≡ none)
    go (some o) r there h = cc
    go none (some e) there h = cc
    go none none there h = (refl, h, refl, there)

-- With the largest int64 as the limit, writeLimited creates an empty file whatever the body holds
-- and reports no error, where the path is free and its creation is not refused.
pub write_limited-max :
    (fs : Files) (path : Text) (b : Body)
    → lookup path fs.entries ≡ none
    → fs.refuses path ≡ none
    → write_limited fs path b (pos max_i64)
      ≡ record { files = put path (file []) fs; count = 0; failure = none }
unfolding write_limited limited inc_i64
write_limited-max fs path b free allowed = rw (free, allowed) refl

-- What is left of a positive limit that has not been exceeded is not negative.
pub remaining-pos :
    (l written : ℕ) → 0 < l → written ≤ l → remaining (pos l) written ≡ pos (l - written)
unfolding remaining
remaining-pos l written h k = ground arith

pub remaining_none :
    (limit : ℤ) (written : ℕ) → ltb_ℤ (pos 0) limit ≡ false → remaining limit written ≡ negsuc 0
unfolding remaining
remaining_none limit written h = rw h

-- Restating a size limit error neither adds nor drops an error.
pub size_limit_with_totals-none :
    (f : Option Error) (t : ℕ) (limit : ℤ) → size_limit_with_totals f t limit ≡ none → f ≡ none
unfolding size_limit_with_totals
size_limit_with_totals-none none t limit h = refl
size_limit_with_totals-none (some e) t limit h = ground arith
