-- ===== src/Tar/Tests.antt =====
-- client/fallback.go: an archive with one directory, and the theorems at it.
use ipfs_mobile.Prelude.{◌+◌, ◌≡◌, ◌≤◌, refl, none, List, [], ◌∷◌, arith}
use ipfs_mobile.Prelude.Text.{Text, codes, text_eq}
use ipfs_mobile.Prelude.Int.{pos}
use ipfs_mobile.Errors.{Error, ok, err}
use ipfs_mobile.FilePath.{clean, join, has_prefix}
use ipfs_mobile.FilePath.Joined.{IsBelow}
use ipfs_mobile.Storage.{Files}
use ipfs_mobile.Storage.Stored.{stored}
use ipfs_mobile.Tar.{Header, type_dir, type_reg, extract_tar, resolve_tar_path}
use ipfs_mobile.Tar.Names.{Placed, resolve_tar_path-Placed}
use ipfs_mobile.Tar.Relative.{resolve_tar_path_dotted}
use ipfs_mobile.Tar.Limits.{extract_tar-le}

abbrev scratch : Text
scratch = codes "/d/.s"

abbrev disk : Files
disk = record { entries = []; refuses = λ p. none }

abbrev archive : List Header
archive =
    record { name = codes "cid/"; flag = type_dir; body = record { bytes = []; failure = none } }
    ∷ record {
      name = codes "cid/a";
      flag = type_reg;
      body = record { bytes = codes "hello"; failure = none };
    }
    ∷ []

scratch-IsBelow : IsBelow scratch
unfolding clean text_eq
scratch-IsBelow = record { is_clean = refl; not_root = λ e. cc; not_here = λ e. cc }

resolve_tar_path-Placed_example :
    Placed scratch (codes "../x/./y") (resolve_tar_path scratch (codes "../x/./y"))
resolve_tar_path-Placed_example = resolve_tar_path-Placed scratch (codes "../x/./y") scratch-IsBelow

climbing : resolve_tar_path scratch (codes "../x/./y") ≡ ok (codes "/d/.s/x/y", codes "/d/.s/x")
unfolding resolve_tar_path clean join text_eq has_prefix
climbing = refl

resolve_tar_path_dotted_example :
    (e : Error) × (resolve_tar_path (codes "./.s") (codes "cid") ≡ err e)
resolve_tar_path_dotted_example = resolve_tar_path_dotted (codes ".s") (codes "cid")

extract_tar-le_example :
    let r = extract_tar scratch (pos 3) disk archive none in
    ((r.progress).written ≤ 4)
    × (stored ((r.progress).files).entries ≡ stored disk.entries + (r.progress).written)
extract_tar-le_example = extract_tar-le 3 (omega arith) (omega arith) scratch disk archive none
