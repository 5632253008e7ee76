-- ===== src/Storage.antt =====
-- client/fallback.go, client/node.go: the files that a download stages, and `writeLimited`, which
-- writes one of them. The file system is a map from paths to what is there. `refuses` says which
-- paths the operating system will not create, and with what error; beyond that a write to an open
-- file succeeds.
use ipfs_mobile.Prelude.{
  ℕ, zero, suc, ◌+◌, ◌-◌, ◌^◌, Bool, true, false, Option, none, some, List, [], ◌∷◌, ◌++◌,
}
use ipfs_mobile.Prelude.Tests.{ltb, leb, ◌==◌, if◌then◌else◌}
use ipfs_mobile.Prelude.Lists.{length}
use ipfs_mobile.Prelude.Text.{Text, codes}
use ipfs_mobile.Prelude.Dict.{Dict, lookup, insert}
use ipfs_mobile.Prelude.Int.{ℤ, pos, negsuc, ◌-ℤ◌, ltb_ℤ}
use ipfs_mobile.Errors.{Error, message, SizeLimit, size_limit}
pub mod Limits
pub mod Fitting
pub mod Kept
pub mod Stored
pub mod Tests

pub data Entry : Type 0 where
  folder : Entry
  file : Text → Entry

pub record Files : Type 0 where
  pub entries : Dict Entry
  pub refuses : Text → Option Error

abbrev pub put : Text → Entry → Files → Files
put path e fs = record fs { entries = insert path e fs.entries }

-- What a reader delivers: its bytes, and then its end or an error.
pub record Body : Type 0 where
  pub bytes : Text
  pub failure : Option Error

abbrev pub max_i64 : ℕ
max_i64 = 2 ^ 63 - 1

-- `n + 1` on an int64.
unfoldable pub inc_i64 : ℤ → ℤ
inc_i64 (pos n) = if leb max_i64 n then negsuc max_i64 else pos (n + 1)
inc_i64 (negsuc zero) = pos 0
inc_i64 (negsuc (suc n)) = negsuc n

abbrev pub take : ℕ → Text → Text
take zero xs = []
take (suc n) [] = []
take (suc n) (x ∷ xs) = x ∷ take n xs

-- What arrives through `io.LimitReader(body, n)`: with `n` at most 0 nothing, and no error.
unfoldable pub limited : ℤ → Body → Body
limited (negsuc n) b = record { bytes = []; failure = none }
limited (pos n) b = record {
  bytes = take n b.bytes;
  failure = if ltb (length b.bytes) n then b.failure else none;
}

-- What a function that writes returns: the count and the error.
pub record Written : Type 0 where
  pub files : Files
  pub count : ℕ
  pub failure : Option Error

abbrev exists_error : Error
exists_error = message (codes "file exists")

-- Whether the operating system creates an entry at `path`, exclusively.
abbrev pub may_create : Files → Text → Option Error → Option Entry → Option Error
may_create fs path refusal (some e) = some exists_error
may_create fs path refusal none = refusal

abbrev pub copied : Files → Text → Body → Written
copied fs path b = record {
  files = put path (file b.bytes) fs;
  count = length b.bytes;
  failure = b.failure;
}

abbrev pub checked : ℤ → Written → Option Error → Written
checked limit w (some e) = w
checked limit w none =
    if ltb_ℤ limit (pos w.count)
    then record w { failure = some (size_limit (record { size = pos w.count; limit = limit })) }
    else w

abbrev pub write_body : Files → Text → Body → ℤ → Written
write_body fs path b (negsuc n) = copied fs path b
write_body fs path b (pos n) =
    let w = copied fs path (limited (inc_i64 (pos n)) b) in checked (pos n) w w.failure

abbrev pub write_unless : Option Error → Files → Text → Body → ℤ → Written
write_unless (some e) fs path b limit = record { files = fs; count = 0; failure = some e }
write_unless none fs path b limit = write_body fs path b limit

-- `writeLimited`.
unfoldable pub write_limited : Files → Text → Body → ℤ → Written
unfolding limited inc_i64
write_limited fs path b limit =
    write_unless (may_create fs path (fs.refuses path) (lookup path fs.entries)) fs path b limit

-- `remaining`, as `extractTar` and `materialise` compute it.
unfoldable pub remaining : ℤ → ℕ → ℤ
unfolding ◌-ℤ◌
remaining limit written = if ltb_ℤ (pos 0) limit then limit -ℤ pos written else negsuc 0
