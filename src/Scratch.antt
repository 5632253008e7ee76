-- ===== src/Scratch.antt =====
-- client/node.go and client/fallback.go: what node.download and fetchFromGateway do around the work
-- in their staging directory: the sweep, `claimScratch`, and the `release` that it returns, which is
-- deferred. The operating system reads a path up to its cleaning.
use ipfs_mobile.Prelude.{Bool, Option, none, some, List, [], ◌∷◌}
use ipfs_mobile.Prelude.Text.{Text}
use ipfs_mobile.Prelude.Dict.{Dict}
use ipfs_mobile.Errors.{Error, Result, ok, err}
use ipfs_mobile.FilePath.{clean, dir_of}
use ipfs_mobile.Storage.{Files, Entry, folder, put}
use ipfs_mobile.Staging.{claim_scratch, unregister, DirEntry, sweep}
use ipfs_mobile.Replacement.{remove_some}
pub mod Released
pub mod Filled
pub mod Upward
pub mod Aside

-- The files, the registry of staging directories, and the entries that `os.RemoveAll` fails to
-- remove.
pub record Host : Type 0 where
  pub files : Files
  pub staging : List Text
  pub stays : Text → Bool

-- The files that a sweep leaves.
unfoldable pub remove_each : (Text → Bool) → List Text → Dict Entry → Dict Entry
remove_each stays [] es = es
remove_each stays (p ∷ ps) es = remove_each stays ps (remove_some stays p es)

abbrev pub in_files : Host → Files → Host
in_files h fs = record h { files = fs }

-- `sweepScratchPrefix(filepath.Dir(output), prefix)`, with what `os.ReadDir` lists.
unfoldable pub swept : Text → List DirEntry → Text → Host → Host
unfolding remove_each remove_some
swept prefix listing output h = in_files h (record (h.files) {
  entries = remove_each h.stays (sweep (dir_of output) prefix h.staging listing) (h.files).entries;
})

-- `release`, which goes on where `os.RemoveAll` fails.
unfoldable pub release : Text → Host → Host
unfolding remove_some
release scratch h = record {
  files = record (h.files) { entries = remove_some h.stays (clean scratch) (h.files).entries };
  staging = unregister scratch h.staging;
  stays = h.stays;
}

-- The files with the staging directory made.
abbrev pub prepared : Text → Host → Files
prepared scratch h = put (clean scratch) folder h.files

-- After `claimScratch`: its error, or what is done in the staging directory, and the release.
unfoldable pub with_scratch :
    (Text → Files → Files × Option Error) → Host → List Text × Result Text → Host × Option Error
unfolding release
with_scratch body h (live, err e) = (record h { staging = live }, some e)
with_scratch body h (live, ok scratch) =
    let r = body scratch (prepared scratch h) in
    (release scratch (in_files (record h { staging = live }) r.0), r.1)

-- `claimScratch(filepath.Dir(output), prefix)`, and `with_scratch`.
unfoldable pub staging_below :
    (Text → Files → Files × Option Error) → Text → Host → Result Text → Host × Option Error
unfolding with_scratch
staging_below body output h chosen =
    with_scratch body h (claim_scratch h.staging (dir_of output) chosen)
