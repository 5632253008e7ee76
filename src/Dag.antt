-- ===== src/Dag.antt =====
-- client/node.go: `materialise`, which writes a UnixFS node that was fetched block by block, and
-- `validEntryName`. A node is what boxo's `files` hands over.
use ipfs_mobile.Prelude.{
  ℕ, ◌+◌, Bool, true, false, ◌&&◌, ◌||◌, not, Option, none, some, List, [], ◌∷◌,
}
use ipfs_mobile.Prelude.Tests.{◌==◌, if◌then◌else◌}
use ipfs_mobile.Prelude.Text.{Text, text_eq, codes}
use ipfs_mobile.Prelude.Dict.{lookup}
use ipfs_mobile.Prelude.Int.{ℤ}
use ipfs_mobile.Errors.{Error, message, size_limit_with_totals}
use ipfs_mobile.FilePath.{dot, dot_dot, slash, join}
use ipfs_mobile.Storage.{
  Files, Entry, folder, file, Body, Written, put, write_limited, remaining, may_create,
}
pub mod Limits
pub mod Shape
pub mod Content
pub mod Places
pub mod Standing
pub mod Cases
pub mod Entries
pub mod Whole
pub mod Kept
pub mod Beside
pub mod Tests

-- The cases of the type switch: `other` is any type that it does not name. The entries of a
-- directory end with what `entries.Err()` returns.
mutual
  pub data Node : Type 0 where
    symlink : Text → Node
    regular : Body → Node
    directory : Items → Node
    other : Node

  pub data Items : Type 0 where
    end : Option Error → Items
    item : Text → Node → Items → Items

unfoldable pub contains_any : Text → Bool
contains_any [] = false
contains_any (c ∷ s) = ((c == slash) || (c == 0)) || contains_any s

-- `validEntryName`.
unfoldable pub valid_entry_name : Text → Bool
unfolding contains_any
valid_entry_name name =
    not (text_eq name [])
    && (not (text_eq name dot) && (not (text_eq name dot_dot) && not (contains_any name)))

-- What `materialise` returns: the count and the error, and the files.
pub record Outcome : Type 0 where
  pub files : Files
  pub written : ℕ
  pub failure : Option Error

abbrev pub stopped : Files → ℕ → Error → Outcome
stopped fs written e = record { files = fs; written = written; failure = some e }

-- A regular file.
abbrev pub write_regular : Files → Text → Body → ℤ → ℕ → Outcome
write_regular fs path b limit written =
    let w = write_limited fs path b (remaining limit written) in
    let total' = written + w.count in
    record {
      files = w.files;
      written = total';
      failure = size_limit_with_totals w.failure total' limit;
    }

-- After one entry of a directory: stop at its error, or go on with the rest.
abbrev pub and_then : Outcome → (Files → ℕ → Outcome) → Option Error → Outcome
and_then r rest (some e) = r
and_then r rest none = rest r.files r.written

-- `os.Mkdir`, and then the entries.
abbrev pub in_folder : Files → Text → ℕ → Option Error → (Files → ℕ → Outcome) → Outcome
in_folder fs path written (some e) rest = stopped fs written e
in_folder fs path written none rest = rest (put path folder fs) written

-- `materialise`, and its loop over the entries of a directory at `path`.
unfoldable mutual
  pub materialise : Node → ℤ → Files → Text → ℕ → Outcome
  materialise (symlink target) limit fs path written =
      stopped fs written (message (codes "refusing to write a symlink"))
  materialise (regular b) limit fs path written = write_regular fs path b limit written
  materialise (directory items) limit fs path written =
      in_folder fs path written (may_create fs path (fs.refuses path) (lookup path fs.entries))
        (λ fs' n. materialise_items items limit path fs' n)
  materialise other limit fs path written =
      stopped fs written (message (codes "unsupported unixfs node type"))

  pub materialise_items : Items → ℤ → Text → Files → ℕ → Outcome
  materialise_items (end e) limit path fs written = record {
    files = fs;
    written = written;
    failure = e;
  }
  materialise_items (item name node rest) limit path fs written =
      if valid_entry_name name
      then (let r = materialise node limit fs (join path name) written in
          and_then r (λ fs' n. materialise_items rest limit path fs' n) r.failure)
      else stopped fs written (message (codes "invalid directory entry name"))
