-- ===== src/Archives.antt =====
-- client/fallback.go: `fetchFromGateway` from a response with status 200 on, with the files and the
-- registry of staging directories.
use ipfs_mobile.Prelude.{Bool, true, false, not, ◌&&◌, Option, none, some, List, []}
use ipfs_mobile.Prelude.Tests.{if◌then◌else◌}
use ipfs_mobile.Prelude.Text.{Text, text_eq, codes}
use ipfs_mobile.Prelude.Int.{ℤ}
use ipfs_mobile.Errors.{Error, Result, message}
use ipfs_mobile.FilePath.{has_prefix}
use ipfs_mobile.Storage.{Files}
use ipfs_mobile.Tar.{Header, Progress, Extracted, extract_tar}
use ipfs_mobile.Fallback.{tar_type}
use ipfs_mobile.Staging.{gateway_scratch_prefix, DirEntry}
use ipfs_mobile.Replacement.{Replacing, replace}
use ipfs_mobile.Scratch.{Host, swept, staging_below}
pub mod Received
pub mod Listed
pub mod Unpacked
pub mod Delivered
pub mod Confined
pub mod Tests

-- What the response and the operating system hand over: the type and the archive, the entries of
-- the output's directory, the name that `MkdirTemp` chooses, and what `replace` meets.
pub record Arrival : Type 0 where
  pub content_type : Text
  pub archive : List Header
  pub ending : Option Error
  pub listing : List DirEntry
  pub scratch_name : Result Text
  pub replacing : Replacing

-- After `extractTar`: its error, or `replace`.
abbrev pub moved_out : Replacing → Text → Extracted → Option Error → Files × Option Error
moved_out r output x (some e) = ((x.progress).files, some e)
moved_out r output x none = replace r (x.progress).root output (x.progress).files

-- In the staging directory.
abbrev pub unpack : Arrival → ℤ → Text → Text → Files → Files × Option Error
unpack a limit output scratch made =
    let x = extract_tar scratch limit made a.archive a.ending in
    moved_out a.replacing output x x.failure

abbrev pub is_refused : Text → Bool
is_refused content_type = not (text_eq content_type []) && not (has_prefix content_type tar_type)

unfoldable pub receive : Arrival → ℤ → Text → Host → Host × Option Error
unfolding swept staging_below
receive a limit output h =
    if is_refused a.content_type
    then (h, some (message (codes "gateway served another type")))
    else staging_below (unpack a limit output) output
        (swept gateway_scratch_prefix a.listing output h) a.scratch_name
