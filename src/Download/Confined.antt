-- ===== src/Download/Confined.antt =====
-- client/node.go: what `node.download` leaves alone.
use ipfs_mobile.Prelude.{◌≡◌, refl, Option, none, some, ◌∷◌, ◌++◌, ◌∙◌}
use ipfs_mobile.Prelude.Text.{Text}
use ipfs_mobile.Prelude.Dict.{lookup}
use ipfs_mobile.Prelude.Int.{ℤ}
use ipfs_mobile.Errors.{Error, Result, ok, err}
use ipfs_mobile.FilePath.{slash}
use ipfs_mobile.FilePath.Joined.{IsName, join-name}
use ipfs_mobile.Storage.{folder, put}
use ipfs_mobile.Dag.{Node, Outcome, materialise}
use ipfs_mobile.Dag.Places.{IsBelow-name, put_beside}
use ipfs_mobile.Dag.Beside.{materialise_beside}
use ipfs_mobile.Staging.{strip, scratch_prefix}
use ipfs_mobile.Staging.Subtree.{strip-shorter}
use ipfs_mobile.Replacement.Published.{replace_other}
use ipfs_mobile.Scratch.{Host, swept}
use ipfs_mobile.Scratch.Aside.{NameAside, Spared, Elsewhere, staging_below_aside}
use ipfs_mobile.Download.{
  Session, data_name, finished, staged_in, hinted, after_hint, with_root, download,
}
use ipfs_mobile.Download.Delivered.{data-IsName}

module _ (s : Session) (limit : ℤ) (dir base q : Text) (h : Host) (elsewhere : Elsewhere dir base q)
    (chosen : NameAside dir q s.scratch_name) (spared : Spared dir scratch_prefix q s.listing) where
  abbrev output : Text
  output = dir ++ (slash ∷ base)

  abbrev k : Host
  k = swept scratch_prefix s.listing output h

  finished_other :
      (staged : Text) (o : Outcome) (e : Option Error)
      → strip staged q ≡ none
      → lookup q ((finished s.replacing staged output o e).0).entries ≡ lookup q (o.files).entries
  finished_other staged o (some e) aside = refl
  finished_other staged o none aside =
      replace_other s.replacing staged output o.files q aside elsewhere.elsewhere

  -- The node goes to the staging directory and the output.
  staged_other :
      (nd : Node) (name : Text)
      → IsName name
      → strip (dir ++ (slash ∷ name)) q ≡ none
      → lookup q
          ((staged_in s limit output nd
              (dir ++ (slash ∷ name))
              (put (dir ++ (slash ∷ name)) folder k.files)).0
            ).entries
        ≡ lookup q (k.files).entries
  staged_other nd name named aside =
      let scratch = dir ++ (slash ∷ name) in
      let staged = scratch ++ (slash ∷ data_name) in
      let made = put scratch folder k.files in
      let o = materialise nd limit made staged 0 in
      let below = IsBelow-name dir name elsewhere.below named in
      let aside' = strip-shorter scratch (slash ∷ data_name) q refl aside in
      rw (join-name scratch data_name below data-IsName) (
        finished_other staged o o.failure aside'
        ∙ materialise_beside nd limit made staged q 0
            (IsBelow-name scratch data_name below data-IsName) aside'
        ∙ put_beside scratch q folder k.files aside)

  hinted_other :
      (nd : Node) (o : Option Error)
      → lookup q (((after_hint s limit output h nd o).0).files).entries ≡ lookup q (h.files).entries
  hinted_other nd (some e) = refl
  hinted_other nd none =
      staging_below_aside scratch_prefix s.listing dir base q h (staged_in s limit output nd)
        elsewhere spared s.scratch_name chosen (staged_other nd)

  rooted_other :
      (r : Result Node)
      → lookup q (((with_root s limit output h r).0).files).entries ≡ lookup q (h.files).entries
  rooted_other (err e) = refl
  rooted_other (ok nd) = hinted_other nd (hinted limit s.size)

  -- Where the output is a name in a clean directory that is neither the root nor the working
  -- directory and does not end with a slash, and ReadDir lists names and MkdirTemp chooses one, if
  -- it does not fail, a download leaves every path alone that is neither at or below the output,
  -- nor at or below the staging directory, nor at or below a listed name with the prefix of the
  -- staging directories, whatever the root holds, whatever names its directories give and whatever
  -- fails.
  pub download_other :
      lookup q (((download s limit output h).0).files).entries ≡ lookup q (h.files).entries
  unfolding download
  download_other = rooted_other s.root
