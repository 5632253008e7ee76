-- ===== src/Download/Tests.antt =====
-- client/node.go: a file of five bytes, and the theorems at it.
use ipfs_mobile.Prelude.{◌≡◌, ◌++◌, refl, inr, false, none, [], ◌∷◌, arith}
use ipfs_mobile.Prelude.Text.{Text, codes, text_eq}
use ipfs_mobile.Prelude.Dict.{lookup, insert}
use ipfs_mobile.Prelude.Int.{pos}
use ipfs_mobile.Errors.{ok, size_limit_with_totals}
use ipfs_mobile.FilePath.{clean, join, dir_of}
use ipfs_mobile.Storage.{file, write_limited, remaining}
use ipfs_mobile.Dag.{directory, item, end, Node, regular, materialise}
use ipfs_mobile.Staging.{scratch_prefix, strip, temp_path, ends_slash, claim_scratch, sweep}
use ipfs_mobile.Replacement.{Replacing, replace}
use ipfs_mobile.Scratch.{Host, prepared, swept, staging_below, with_scratch}
use ipfs_mobile.Scratch.Released.{scratch_of}
use ipfs_mobile.Download.{Session, download}
use ipfs_mobile.Dag.Shape.{size, is_plain}
use ipfs_mobile.Dag.Content.{is_distinct}
use ipfs_mobile.Scratch.Filled.{Delivered}
use ipfs_mobile.Download.Delivered.{Fair, download-Delivered}
use ipfs_mobile.Download.Confined.{download_other}
use ipfs_mobile.Download.Released.{Holds, download_leaves_nothing, download-Holds}

abbrev replacing : Replacing
replacing = record {
  context = none;
  first = none;
  lock = none;
  second = none;
  removal = none;
  survives = λ p. false;
  third = none;
}

abbrev session : Session
session = record {
  root = ok (regular (record { bytes = codes "hello"; failure = none }));
  size = ok (pos 5);
  listing = [];
  scratch_name = ok (codes ".s");
  replacing = replacing;
}

abbrev output : Text
output = codes "/d/o"

abbrev host : Host
host = record {
  files = record { entries = (codes "/d/o", file (codes "old")) ∷ []; refuses = λ p. none };
  staging = codes "/d/.t" ∷ [];
  stays = λ p. false;
}

download_leaves_nothing_example :
    lookup
      (clean (scratch_of output (codes ".s")) ++ codes "/data")
      (((download session (pos 5) output host).0).files).entries
    ≡ none
unfolding lookup text_eq temp_path ends_slash dir_of clean
download_leaves_nothing_example =
    download_leaves_nothing session (pos 5) output (codes ".s") host refl (codes "/data") refl refl
      refl

download-Holds_example :
    Holds session
      (pos 5)
      output
      (codes ".s")
      (prepared (scratch_of output (codes ".s")) (swept scratch_prefix [] output host))
      (((download session (pos 5) output host).0).files)
unfolding download swept staging_below with_scratch strip lookup insert text_eq temp_path ends_slash
    dir_of clean join materialise write_limited remaining size_limit_with_totals replace
    claim_scratch sweep
download-Holds_example =
    download-Holds session (pos 5) output (codes ".s") host
      (inr (5, refl, omega arith, omega arith, omega arith)) refl (λ t tail. refl) (λ t tail. refl)
      refl

abbrev five : Node
five = regular (record { bytes = codes "hello"; failure = none })

session-Fair : Fair session (pos 5) (codes "/d") (codes "o") (codes ".s") five host
unfolding clean text_eq ends_slash size is_distinct lookup is_plain
session-Fair = record {
  place = record {
    below = record { is_clean = refl; not_root = λ e. cc; not_here = λ e. cc };
    slashless = refl;
    base_name = (record { nonempty = λ e. cc; not_dot = λ e. cc; flat = omega arith }, λ e. cc);
    scratch_name = (record { nonempty = λ e. cc; not_dot = λ e. cc; flat = omega arith }, λ e. cc);
    different = refl;
    plain = refl;
    distinct = refl;
    room = inr (5, refl, omega arith, omega arith, omega arith);
    willing = λ p. refl;
    free = λ t tail. refl;
  };
  rooted = refl;
  scratch_chosen = refl;
  context_alive = refl;
  renames = refl;
  declared = refl;
}

download-Delivered_example :
    Delivered five (codes "/d/o") (download session (pos 5) (codes "/d/o") host)
download-Delivered_example =
    download-Delivered session (pos 5) (codes "/d") (codes "o") (codes ".s") five host session-Fair

-- A directory with an entry that climbs out of it.
abbrev climbing : Node
climbing = directory (
    item (codes "../../etc/x") (regular (record { bytes = codes "hello"; failure = none }))
      (end none))

download_other_example :
    lookup
      (codes "/etc/x")
      (((download (record session { root = ok climbing }) (pos 5) (codes "/d/o") host).0).files
        ).entries
    ≡ lookup (codes "/etc/x") (host.files).entries
unfolding clean text_eq ends_slash lookup strip sweep
download_other_example =
    download_other (record session { root = ok climbing }) (pos 5) (codes "/d") (codes "o")
      (codes "/etc/x") host
      (record {
        below = record { is_clean = refl; not_root = λ e. cc; not_here = λ e. cc };
        slashless = refl;
        base_name = (record { nonempty = λ e. cc; not_dot = λ e. cc; flat = omega arith }, λ e. cc);
        elsewhere = refl;
      })
      ((record { nonempty = λ e. cc; not_dot = λ e. cc; flat = omega arith }, λ e. cc), refl) tt
