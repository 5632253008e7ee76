-- ===== src/Archives/Confined.antt =====
-- client/fallback.go: what `fetchFromGateway` leaves alone.
use ipfs_mobile.Prelude.{
  ◌≡◌, refl, Bool, true, false, Option, none, some, ◌∷◌, ◌++◌, sym, ◌∙◌, subst,
}
use ipfs_mobile.Prelude.Tests.{if◌then◌else◌}
use ipfs_mobile.Prelude.Lists.{All-map}
use ipfs_mobile.Prelude.Text.{Text, codes}
use ipfs_mobile.Prelude.Dict.{lookup}
use ipfs_mobile.Prelude.Int.{ℤ}
use ipfs_mobile.Errors.{Error, message}
use ipfs_mobile.FilePath.{slash}
use ipfs_mobile.FilePath.Joined.{IsName}
use ipfs_mobile.Storage.{folder, put}
use ipfs_mobile.Dag.Places.{IsBelow-name, put_beside}
use ipfs_mobile.Tar.{Extracted, extract_tar}
use ipfs_mobile.Tar.Folders.{Folders}
use ipfs_mobile.Tar.Above.{Under}
use ipfs_mobile.Tar.Confined.{extract_tar-Confined}
use ipfs_mobile.Tar.Rooted.{extract_tar-Under}
use ipfs_mobile.Staging.{strip, gateway_scratch_prefix}
use ipfs_mobile.Staging.Subtree.{strip-shorter}
use ipfs_mobile.Replacement.Published.{replace_other}
use ipfs_mobile.Scratch.{Host, swept, staging_below}
use ipfs_mobile.Scratch.Upward.{scratch-Folders}
use ipfs_mobile.Scratch.Aside.{NameAside, Spared, Elsewhere, staging_below_aside}
use ipfs_mobile.Archives.{Arrival, moved_out, unpack, is_refused, receive}

module _ (a : Arrival) (limit : ℤ) (dir base q : Text) (h : Host) (elsewhere : Elsewhere dir base q)
    (chosen : NameAside dir q a.scratch_name)
    (spared : Spared dir gateway_scratch_prefix q a.listing) (standing : Folders h.files dir) where
  abbrev output : Text
  output = dir ++ (slash ∷ base)

  abbrev k : Host
  k = swept gateway_scratch_prefix a.listing output h

  moved :
      (scratch : Text) (x : Extracted) (o : Option Error)
      → strip scratch q ≡ none
      → x.failure ≡ o
      → (x.failure ≡ none → Under scratch (x.progress).root)
      → lookup q ((moved_out a.replacing output x o).0).entries
        ≡ lookup q ((x.progress).files).entries
  moved scratch x (some e) aside h under = refl
  moved scratch x none aside h under =
      let (u, e) = under h in
      replace_other a.replacing (x.progress).root output (x.progress).files q
        (subst (λ r. strip r q ≡ none) (sym e) (strip-shorter scratch (slash ∷ u) q refl aside))
        elsewhere.elsewhere

  -- The archive goes to the staging directory and the output.
  unpack_other :
      (name : Text)
      → IsName name
      → strip (dir ++ (slash ∷ name)) q ≡ none
      → lookup q
          ((unpack a limit output
              (dir ++ (slash ∷ name))
              (put (dir ++ (slash ∷ name)) folder k.files)).0
            ).entries
        ≡ lookup q (k.files).entries
  unpack_other name named aside =
      let scratch = dir ++ (slash ∷ name) in
      let made = put scratch folder k.files in
      let x = extract_tar scratch limit made a.archive a.ending in
      let below = IsBelow-name dir name elsewhere.below named in
      let standing' =
        scratch-Folders gateway_scratch_prefix a.listing dir base name h elsewhere.below
          elsewhere.base_name named (All-map a.listing (λ e s. s.0) spared) standing in
      moved scratch x x.failure aside refl
        (extract_tar-Under scratch below limit made a.archive a.ending)
      ∙ (extract_tar-Confined scratch limit made a.archive a.ending below standing').outside q aside
      ∙ put_beside scratch q folder k.files aside

  -- Where the output is a name in a clean directory that is neither the root nor the working
  -- directory, does not end with a slash and stands with all above it, and ReadDir lists names and
  -- MkdirTemp chooses one, if it does not fail, fetchFromGateway, from a response with status 200
  -- on, leaves every path alone that is neither at or below the output, nor at or below the
  -- staging directory, nor at or below a listed name with the prefix of the staging directories,
  -- whatever the gateway sends and whatever fails.
  pub receive_other :
      lookup q (((receive a limit output h).0).files).entries ≡ lookup q (h.files).entries
  unfolding receive
  receive_other = typed (is_refused a.content_type)
    where
      typed :
          (b : Bool)
          → lookup q
              (((if b
                  then (h, some (message (codes "gateway served another type")))
                  else staging_below (unpack a limit output) output k a.scratch_name).0
                ).files).entries
            ≡ lookup q (h.files).entries
      typed true = refl
      typed false =
          staging_below_aside gateway_scratch_prefix a.listing dir base q h (unpack a limit output)
            elsewhere spared a.scratch_name chosen unpack_other
