-- ===== src/Tar.antt =====
-- client/fallback.go: `resolveTarPath` and `extractTar`, which unpack the archive that a gateway
-- serves. The archive is what the tar reader delivers: headers, each with its body, and the way the
-- archive ends.
use ipfs_mobile.Prelude.{
  ℕ, ◌+◌, Bool, true, false, ◌&&◌, not, Option, none, some, List, [], ◌∷◌, ◌++◌,
}
use ipfs_mobile.Prelude.Tests.{◌==◌, if◌then◌else◌}
use ipfs_mobile.Prelude.Text.{Text, text_eq, codes}
use ipfs_mobile.Prelude.Dict.{lookup}
use ipfs_mobile.Prelude.Int.{ℤ}
use ipfs_mobile.Errors.{Error, Result, ok, err, message, size_limit_with_totals}
use ipfs_mobile.FilePath.{clean, join, split, has_prefix, trim_slash, dir_of, slash}
use ipfs_mobile.Storage.{Files, Entry, folder, file, put, Body, Written, write_limited, remaining}
pub mod Names
pub mod Folders
pub mod Above
pub mod Confined
pub mod Rooted
pub mod Relative
pub mod Limits
pub mod Tests

abbrev top_of : Text → Text → List Text → Result (Text × Text)
top_of dir path [] = err (message (codes "tar entry has no top level name"))
top_of dir path (e ∷ es) =
    if text_eq e []
    then err (message (codes "tar entry has no top level name"))
    else ok (path, join dir e)

abbrev resolve_cleaned : Text → Text → Result (Text × Text)
resolve_cleaned dir cleaned =
    let path = join dir cleaned in
    if not (text_eq path dir) && not (has_prefix path (dir ++ (slash ∷ [])))
    then err (message (codes "tar entry escapes the staging directory"))
    else top_of dir path (split slash (trim_slash cleaned))

-- `resolveTarPath`: the path of the entry and the top level path above it.
unfoldable pub resolve_tar_path : Text → Text → Result (Text × Text)
resolve_tar_path dir [] = err (message (codes "tar entry has no name"))
resolve_tar_path dir (c ∷ name) = resolve_cleaned dir (clean (slash ∷ c ∷ name))

-- The type flags that `extractTar` tells apart.
pub data Flag : Type 0 where
  type_dir type_reg other : Flag

pub record Header : Type 0 where
  pub name : Text
  pub flag : Flag
  pub body : Body

-- The variables of `extractTar`: its files are the file system's.
pub record Progress : Type 0 where
  pub files : Files
  pub root : Text
  pub written : ℕ

-- What `extractTar` returns: an error, or the root and the number of bytes written; in either case
-- with what was written.
pub record Extracted : Type 0 where
  pub progress : Progress
  pub failure : Option Error

abbrev pub failed : Progress → Error → Extracted
failed p e = record { progress = p; failure = some e }

-- Every prefix of a path that a slash follows, and the path itself.
unfoldable pub ancestors : Text → Text → List Text
ancestors done [] = done ∷ []
ancestors done (c ∷ s) =
    let rest = ancestors (done ++ c ∷ []) s in
    if (c == slash) && not (text_eq done []) then done ∷ rest else rest

-- What `os.Mkdir` does at one of the paths of `os.MkdirAll`, given what is there.
abbrev pub make_folder : Files → Text → Option Entry → Option Error → Result Files
make_folder fs path (some folder) r = ok fs
make_folder fs path (some (file b)) r = err (message (codes "not a directory"))
make_folder fs path none (some e) = err e
make_folder fs path none none = ok (put path folder fs)

unfoldable pub make_folders : Files → List Text → Files × Option Error
make_folders fs [] = (fs, none)
make_folders fs (p ∷ ps) = elim (make_folder fs p (lookup p fs.entries) (fs.refuses p)) [
  | ok fs' ↦ make_folders fs' ps
  | err e ↦ (fs, some e)
]

-- `os.MkdirAll`.
unfoldable pub mkdir_all : Files → Text → Files × Option Error
unfolding make_folders ancestors
mkdir_all fs path = make_folders fs (ancestors [] path)

-- A regular entry, once the folder that holds it is made.
abbrev pub extract_file : Progress → Text → Body → ℤ → Files × Option Error → Extracted
extract_file p path b limit (fs, some e) = failed (record p { files = fs }) e
extract_file p path b limit (fs, none) =
    let w = write_limited fs path b (remaining limit p.written) in
    let total' = p.written + w.count in
    record {
      progress = record p { files = w.files; written = total' };
      failure = size_limit_with_totals w.failure total' limit;
    }

abbrev pub extract_folder : Progress → Files × Option Error → Extracted
extract_folder p (fs, e) = record { progress = record p { files = fs }; failure = e }

-- The `switch` on the type flag.
abbrev pub extract_flag : Progress → Text → Header → ℤ → Flag → Extracted
extract_flag p path h limit type_dir = extract_folder p (mkdir_all p.files path)
extract_flag p path h limit type_reg =
    extract_file p path h.body limit (mkdir_all p.files (dir_of path))
extract_flag p path h limit other = failed p (message (codes "unsupported tar entry"))

-- The `switch` on the root, and then on the type flag.
abbrev pub extract_at : Progress → Header → ℤ → Result (Text × Text) → Extracted
extract_at p h limit (err e) = failed p e
extract_at p h limit (ok (path, top)) =
    if text_eq p.root []
    then extract_flag (record p { root = top }) path h limit h.flag
    else if text_eq top p.root
    then extract_flag p path h limit h.flag
    else failed p (message (codes "gateway served an archive with more than one root entry"))

-- One round of the loop, after `Next` has returned a header.
unfoldable pub extract_entry : Text → ℤ → Progress → Header → Extracted
unfolding resolve_tar_path mkdir_all write_limited remaining size_limit_with_totals dir_of
extract_entry dir limit p h = extract_at p h limit (resolve_tar_path dir h.name)

abbrev pub extract_end : Progress → Option Error → Extracted
extract_end p (some e) = failed p e
extract_end p none =
    if text_eq p.root []
    then failed p (message (codes "gateway served an empty archive"))
    else record { progress = p; failure = none }

abbrev pub continue_with : Extracted → Extracted → Option Error → Extracted
continue_with r rest none = rest
continue_with r rest (some e) = r

unfoldable pub extract_from : Text → ℤ → Progress → List Header → Option Error → Extracted
unfolding extract_entry
extract_from dir limit p [] ending = extract_end p ending
extract_from dir limit p (h ∷ hs) ending =
    let r = extract_entry dir limit p h in
    let rest = extract_from dir limit r.progress hs ending in continue_with r rest r.failure

-- `extractTar`.
unfoldable pub extract_tar : Text → ℤ → Files → List Header → Option Error → Extracted
unfolding extract_from
extract_tar dir limit fs hs ending =
    extract_from dir limit (record { files = fs; root = []; written = 0 }) hs ending
