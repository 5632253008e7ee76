-- ===== src/Storage/Stored.antt =====
-- The bytes on the disk, and what `writeLimited` adds to them.
use ipfs_mobile.Prelude.{ℕ, ◌+◌, ◌≡◌, refl, Option, none, some, [], ◌∷◌, arith}
use ipfs_mobile.Prelude.Lists.{length}
use ipfs_mobile.Prelude.Text.{Text}
use ipfs_mobile.Prelude.Dict.{Dict, lookup, insert}
use ipfs_mobile.Prelude.Int.{ℤ, pos, negsuc}
use ipfs_mobile.Errors.{Error}
use ipfs_mobile.Storage.{
  Files, Entry, folder, file, Body, Written, limited, inc_i64, write_limited, write_body,
  write_unless, may_create, copied, checked,
}

abbrev pub size_of : Entry → ℕ
size_of folder = 0
size_of (file b) = length b

-- The bytes in all files.
unfoldable pub stored : Dict Entry → ℕ
stored [] = 0
stored ((k, e) ∷ m) = size_of e + stored m

-- A new entry adds its size.
pub stored-insert :
    (path : Text) (e : Entry) (m : Dict Entry)
    → lookup path m ≡ none
    → stored (insert path e m) ≡ stored m + size_of e
unfolding stored lookup insert
stored-insert path e [] h = omega arith
stored-insert path e ((k, d) ∷ m) h = ground (arith, stored-insert path e m)

checked-same :
    (limit : ℤ) (w : Written) (f : Option Error)
    → ((checked limit w f).files ≡ w.files) × ((checked limit w f).count ≡ w.count)
checked-same limit w (some e) = (refl, refl)
checked-same limit w none = ground arith

write_body-stored :
    (fs : Files) (path : Text) (b : Body) (limit : ℤ)
    → lookup path fs.entries ≡ none
    → let w = write_body fs path b limit in stored (w.files).entries ≡ stored fs.entries + w.count
write_body-stored fs path b (negsuc n) h = stored-insert path (file b.bytes) fs.entries h
write_body-stored fs path b (pos n) h =
    let m = limited (inc_i64 (pos n)) b in
    let w = copied fs path m in
    let (same, count) = checked-same (pos n) w w.failure in
    rw (same, count) (stored-insert path (file m.bytes) fs.entries h)

-- The count that `writeLimited` returns is what it added to the disk, whether it failed or not.
pub write_limited-stored :
    (fs : Files) (path : Text) (b : Body) (limit : ℤ)
    → let w = write_limited fs path b limit in
      stored (w.files).entries ≡ stored fs.entries + w.count
unfolding write_limited
write_limited-stored fs path b limit = go (lookup path fs.entries) (fs.refuses path) refl
  where
    go :
        (o : Option Entry) (r : Option Error)
        → lookup path fs.entries ≡ o
        → let w = write_unless (may_create fs path r o) fs path b limit in
          stored (w.files).entries ≡ stored fs.entries + w.count
    go (some o) r there = omega arith
    go none (some e) there = omega arith
    go none none there = write_body-stored fs path b limit there
