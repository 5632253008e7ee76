-- ===== src/Archives/Tests.antt =====
-- client/fallback.go: an archive of one file, and the theorems at it.
use ipfs_mobile.Prelude.{◌≡◌, refl, false, none, inr, arith, [], ◌∷◌}
use ipfs_mobile.Prelude.Text.{Text, codes, text_eq}
use ipfs_mobile.Prelude.Dict.{lookup, insert}
use ipfs_mobile.Prelude.Int.{pos}
use ipfs_mobile.Errors.{ok, size_limit_with_totals}
use ipfs_mobile.FilePath.{clean, join, dir_of, has_prefix}
use ipfs_mobile.Storage.{file, folder, write_limited, remaining}
use ipfs_mobile.Tar.{
  type_reg, extract_tar, extract_from, extract_entry, resolve_tar_path, mkdir_all, ancestors,
}
use ipfs_mobile.Peers.{elem}
use ipfs_mobile.Staging.{strip, temp_path, ends_slash, claim_scratch, sweep}
use ipfs_mobile.Replacement.{Replacing, replace}
use ipfs_mobile.Scratch.{Host, swept, staging_below, with_scratch}
use ipfs_mobile.Archives.{Arrival, receive}
use ipfs_mobile.Archives.Listed.{archive_of}
use ipfs_mobile.Archives.Unpacked.{unpacked_at, extract_tar-materialise}
use ipfs_mobile.Archives.Confined.{receive_other}
use ipfs_mobile.Archives.Delivered.{Faithful, receive-Delivered}
use ipfs_mobile.Scratch.Filled.{Delivered}
use ipfs_mobile.Dag.{Node, regular, directory, end, item, materialise, valid_entry_name}
use ipfs_mobile.Dag.Shape.{is_plain, size}
use ipfs_mobile.Dag.Content.{is_distinct, named_in}
use ipfs_mobile.Archives.Received.{Published, receive-staging, receive-Published}

abbrev replacing : Replacing
replacing = record {
  context = none;
  first = none;
  lock = none;
  second = none;
  removal = none;
  survives = λ p. false;
  third = none;
}

abbrev arrival : Arrival
arrival = record {
  content_type = codes "application/x-tar";
  archive =
      record {
        name = codes "cid";
        flag = type_reg;
        body = record { bytes = codes "hello"; failure = none };
      }
      ∷ [];
  ending = none;
  listing = [];
  scratch_name = ok (codes ".g");
  replacing = replacing;
}

abbrev output : Text
output = codes "/d/o"

abbrev host : Host
host = record {
  files = record { entries = (codes "/d/o", file (codes "old")) ∷ []; refuses = λ p. none };
  staging = codes "/d/.t" ∷ [];
  stays = λ p. false;
}

receive-staging_example : ((receive arrival (pos 5) output host).0).staging ≡ codes "/d/.t" ∷ []
unfolding elem text_eq temp_path ends_slash dir_of clean
receive-staging_example = receive-staging arrival (pos 5) output host refl

receive-Published_example :
    Published arrival
      (pos 5)
      output
      host
      (codes ".g")
      ((receive arrival (pos 5) output host).0).files
unfolding receive staging_below with_scratch claim_scratch swept sweep strip lookup insert text_eq
    temp_path ends_slash dir_of clean join extract_tar extract_from extract_entry resolve_tar_path
    mkdir_all write_limited remaining size_limit_with_totals replace has_prefix
receive-Published_example =
    receive-Published arrival (pos 5) output host (codes ".g") refl (λ t tail. refl)
      (λ t tail. refl) refl

abbrev tree : Node
tree = directory (
    item (codes "a") (regular (record { bytes = codes "hi"; failure = none }))
      (item (codes "b") (directory (end none)) (end none)))

abbrev folders : Host
folders = record {
  files = record {
    entries = (codes "/d", folder) ∷ (codes "/d/o", file (codes "old")) ∷ [];
    refuses = λ p. none;
  };
  staging = [];
  stays = λ p. false;
}

extract_tar-materialise_example :
    extract_tar (codes "/d") (pos 5) folders.files (archive_of (codes "cid") tree) none
    ≡ unpacked_at (codes "/d/cid") (materialise tree (pos 5) folders.files (codes "/d/cid") 0)
unfolding materialise lookup insert join text_eq valid_entry_name write_limited remaining
    size_limit_with_totals clean ancestors
extract_tar-materialise_example =
    extract_tar-materialise (codes "/d") (codes "cid") tree (pos 5) folders.files
      (record { is_clean = refl; not_root = λ e. cc; not_here = λ e. cc })
      (record { nonempty = λ e. cc; not_dot = λ e. cc; flat = omega arith }, λ e. cc) (refl, tt)
      refl

served-Faithful :
    Faithful
      (record arrival { archive = archive_of (codes "cid") tree })
      (pos 5)
      (codes "/d")
      (codes "o")
      (codes ".g")
      (codes "cid")
      tree
      folders
unfolding clean text_eq ends_slash size is_distinct named_in lookup is_plain valid_entry_name
    has_prefix ancestors
served-Faithful = record {
  place = record {
    below = record { is_clean = refl; not_root = λ e. cc; not_here = λ e. cc };
    slashless = refl;
    base_name = (record { nonempty = λ e. cc; not_dot = λ e. cc; flat = omega arith }, λ e. cc);
    scratch_name = (record { nonempty = λ e. cc; not_dot = λ e. cc; flat = omega arith }, λ e. cc);
    different = refl;
    plain = refl;
    distinct = refl;
    room = inr (5, refl, omega arith, omega arith, omega arith);
    willing = λ p. refl;
    free = λ t tail. refl;
  };
  root_name = (record { nonempty = λ e. cc; not_dot = λ e. cc; flat = omega arith }, λ e. cc);
  typed = refl;
  listed = refl;
  ended = refl;
  names = tt;
  standing = (refl, tt);
  scratch_chosen = refl;
  context_alive = refl;
  renames = refl;
}

receive-Delivered_example : Delivered tree (codes "/d/o") (
    receive
      (record arrival { archive = archive_of (codes "cid") tree })
      (pos 5)
      (codes "/d/o")
      folders)
receive-Delivered_example =
    receive-Delivered (record arrival { archive = archive_of (codes "cid") tree }) (pos 5)
      (codes "/d") (codes "o") (codes ".g") (codes "cid") tree folders served-Faithful

abbrev climbing : Arrival
climbing = record arrival {
  archive =
      record {
        name = codes "../../etc/x";
        flag = type_reg;
        body = record { bytes = codes "hello"; failure = none };
      }
      ∷ [];
}

receive_other_example :
    lookup (codes "/etc/x") (((receive climbing (pos 5) (codes "/d/o") folders).0).files).entries
    ≡ lookup (codes "/etc/x") (folders.files).entries
unfolding clean text_eq ends_slash lookup strip ancestors sweep
receive_other_example =
    receive_other climbing (pos 5) (codes "/d") (codes "o") (codes "/etc/x") folders
      (record {
        below = record { is_clean = refl; not_root = λ e. cc; not_here = λ e. cc };
        slashless = refl;
        base_name = (record { nonempty = λ e. cc; not_dot = λ e. cc; flat = omega arith }, λ e. cc);
        elsewhere = refl;
      })
      ((record { nonempty = λ e. cc; not_dot = λ e. cc; flat = omega arith }, λ e. cc), refl) tt
      (refl, tt)
