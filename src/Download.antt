-- ===== src/Download.antt =====
-- client/node.go: `node.download`, from the root of the DAG to the output. What the block service
-- and the operating system return is chosen from outside.
use ipfs_mobile.Prelude.{ℕ, Bool, true, false, Option, none, some, List, [], ◌∷◌}
use ipfs_mobile.Prelude.Tests.{if◌then◌else◌}
use ipfs_mobile.Prelude.Text.{Text, codes}
use ipfs_mobile.Prelude.Dict.{Dict}
use ipfs_mobile.Prelude.Int.{ℤ, pos, ltb_ℤ}
use ipfs_mobile.Errors.{Error, Result, ok, err, size_limit}
use ipfs_mobile.FilePath.{clean, dir_of, join}
use ipfs_mobile.Storage.{Files, Entry, folder, put}
use ipfs_mobile.Dag.{Node, Outcome, materialise}
use ipfs_mobile.Staging.{scratch_prefix, DirEntry}
use ipfs_mobile.Scratch.{Host, swept, staging_below}
use ipfs_mobile.Replacement.{Replacing, replace}
pub mod Released
pub mod Delivered
pub mod Confined
pub mod Tests

-- What the download meets: an error of `Get` or `NewUnixfsFile`, or the root node; what `Size`
-- declares; the entries of the output's directory; the name that `MkdirTemp` chooses; and what
-- `replace` meets.
pub record Session : Type 0 where
  pub root : Result Node
  pub size : Result ℤ
  pub listing : List DirEntry
  pub scratch_name : Result Text
  pub replacing : Replacing

abbrev pub data_name : Text
data_name = codes "data"

-- After `materialise`: an error of it, or `replace`.
abbrev pub finished : Replacing → Text → Text → Outcome → Option Error → Files × Option Error
finished r staged output o (some e) = (o.files, some e)
finished r staged output o none = replace r staged output o.files

-- In the staging directory.
abbrev pub staged_in : Session → ℤ → Text → Node → Text → Files → Files × Option Error
staged_in s limit output nd scratch made =
    let o = materialise nd limit made (join scratch data_name) 0 in
    finished s.replacing (join scratch data_name) output o o.failure

-- The check of the declared size, a hint.
abbrev pub too_large : ℤ → Result ℤ → Option Error
too_large limit (err e) = some e
too_large limit (ok size) =
    if ltb_ℤ limit size then some (size_limit (record { size = size; limit = limit })) else none

abbrev pub hinted : ℤ → Result ℤ → Option Error
hinted limit size = if ltb_ℤ (pos 0) limit then too_large limit size else none

abbrev pub after_hint : Session → ℤ → Text → Host → Node → Option Error → Host × Option Error
after_hint s limit output h nd (some e) = (h, some e)
after_hint s limit output h nd none =
    staging_below (staged_in s limit output nd) output (swept scratch_prefix s.listing output h)
      s.scratch_name

abbrev pub with_root : Session → ℤ → Text → Host → Result Node → Host × Option Error
with_root s limit output h (err e) = (h, some e)
with_root s limit output h (ok nd) = after_hint s limit output h nd (hinted limit s.size)

-- `node.download`.
unfoldable pub download : Session → ℤ → Text → Host → Host × Option Error
unfolding swept staging_below
download s limit output h = with_root s limit output h s.root
