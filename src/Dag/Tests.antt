-- ===== src/Dag/Tests.antt =====
-- client/node.go: a directory with one file, and the theorems at it.
use ipfs_mobile.Prelude.{◌+◌, ◌≡◌, ◌≤◌, refl, inr, true, none, [], arith}
use ipfs_mobile.Prelude.Text.{Text, codes, text_eq}
use ipfs_mobile.Prelude.Dict.{lookup, insert}
use ipfs_mobile.Prelude.Int.{pos}
use ipfs_mobile.FilePath.{join}
use ipfs_mobile.Errors.{size_limit_with_totals}
use ipfs_mobile.Storage.{Files, write_limited, remaining}
use ipfs_mobile.Storage.Stored.{stored}
use ipfs_mobile.Dag.{Node, symlink, regular, directory, end, item, materialise, valid_entry_name}
use ipfs_mobile.Dag.Limits.{materialise-le}
use ipfs_mobile.Dag.Shape.{materialise-plain, is_plain, size, Within}
use ipfs_mobile.Dag.Content.{is_distinct, named_in}
use ipfs_mobile.Dag.Standing.{Stands}
use ipfs_mobile.Dag.Whole.{materialise-Stands}
use ipfs_mobile.FilePath.{clean}

abbrev disk : Files
disk = record { entries = []; refuses = λ p. none }

abbrev staged : Text
staged = codes "/d/.s/data"

abbrev tree : Node
tree =
    directory
      (item (codes "a") (regular (record { bytes = codes "hello"; failure = none })) (end none))

materialise-le_example :
    let r = materialise tree (pos 3) disk staged 0 in
    (r.written ≤ 4) × (stored (r.files).entries ≡ stored disk.entries + r.written)
materialise-le_example = materialise-le tree 3 (omega arith) (omega arith) disk staged

materialise-plain_example :
    (is_plain tree ≡ true)
    × ((materialise tree (pos 5) disk staged 0).written ≡ 0 + size tree)
    × Within (pos 5) (materialise tree (pos 5) disk staged 0).written
unfolding materialise lookup insert join text_eq valid_entry_name write_limited remaining
    size_limit_with_totals
materialise-plain_example =
    materialise-plain tree (pos 5) disk staged 0
      (inr (5, refl, omega arith, omega arith, omega arith)) refl

linked : (materialise (symlink (codes "/etc/passwd")) (pos 5) disk staged 0).files ≡ disk
unfolding materialise
linked = refl

abbrev nested : Node
nested = directory (
    item (codes "a") (regular (record { bytes = codes "hi"; failure = none }))
      (item (codes "b") tree (end none)))

materialise-Stands_example : Stands nested disk staged 1 (materialise nested (pos 8) disk staged 1)
unfolding is_plain is_distinct named_in size lookup clean text_eq valid_entry_name
materialise-Stands_example = materialise-Stands nested (pos 8) disk staged 1 (
  refl,
  refl,
  inr (8, refl, omega arith, omega arith, omega arith),
  (λ p. refl),
  record { is_clean = refl; not_root = λ e. cc; not_here = λ e. cc },
  λ t tail. refl,
)
