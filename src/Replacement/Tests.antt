-- ===== src/Replacement/Tests.antt =====
-- client/output.go: a file that replaces a directory, and the theorems at it.
use ipfs_mobile.Prelude.{◌≡◌, ◌++◌, refl, false, none, some, [], ◌∷◌}
use ipfs_mobile.Prelude.Text.{Text, codes}
use ipfs_mobile.Prelude.Dict.{lookup}
use ipfs_mobile.Errors.{message}
use ipfs_mobile.Storage.{Files, folder, file}
use ipfs_mobile.Staging.{strip}
use ipfs_mobile.Staging.Subtree.{IsTail}
use ipfs_mobile.Replacement.{Replacing, replace}
use ipfs_mobile.Replacement.Published.{replace-published}

-- Both renames onto a directory fail.
abbrev onto_directory : Replacing
onto_directory = record {
  context = none;
  first = some (message (codes "file exists"));
  lock = none;
  second = some (message (codes "file exists"));
  removal = none;
  survives = λ p. false;
  third = none;
}

abbrev staged : Text
staged = codes "/d/.s/data"

abbrev output : Text
output = codes "/d/o"

abbrev disk : Files
disk = record {
  entries =
      (output, folder)
      ∷ (codes "/d/o/x", file (codes "old"))
      ∷ (codes "/d/p", folder)
      ∷ (staged, file (codes "new"))
      ∷ [];
  refuses = λ p. none;
}

replace-published_example :
    (onto_directory.context ≡ none)
    × ((s : Text)
        → IsTail s
        → lookup (output ++ s) ((replace onto_directory staged output disk).0).entries
          ≡ lookup (staged ++ s) disk.entries)
unfolding replace strip
replace-published_example =
    replace-published onto_directory staged output disk (λ s tail. refl) refl
