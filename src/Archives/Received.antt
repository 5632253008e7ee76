-- ===== src/Archives/Received.antt =====
-- client/fallback.go: what a gateway's archive leaves behind, and at the output.
use ipfs_mobile.Prelude.{
  ◌≡◌, refl, Bool, true, false, Option, none, some, inl, inr, ◌++◌, sym, ◌∙◌, subst,
}
use ipfs_mobile.Prelude.Tests.{if◌then◌else◌, Bool-cases}
use ipfs_mobile.Prelude.Text.{Text, codes}
use ipfs_mobile.Prelude.Dict.{lookup}
use ipfs_mobile.Prelude.Int.{ℤ}
use ipfs_mobile.Errors.{Error, ok, message}
use ipfs_mobile.FilePath.{clean, dir_of}
use ipfs_mobile.Storage.{Files}
use ipfs_mobile.Tar.{Extracted, extract_tar}
use ipfs_mobile.Staging.{strip, gateway_scratch_prefix}
use ipfs_mobile.Staging.Subtree.{IsTail}
use ipfs_mobile.Replacement.Published.{replace-published}
use ipfs_mobile.Scratch.{Host, swept, prepared, staging_below}
use ipfs_mobile.Scratch.Released.{
  Fresh, scratch_of, staging_below-staging, staging_below_other, staging_below-failure,
  swept-staging,
}
use ipfs_mobile.Archives.{Arrival, moved_out, unpack, is_refused, receive}

module _ (a : Arrival) (limit : ℤ) (output : Text) (h : Host) where
  -- The files in which `extractTar` starts, and what it leaves.
  abbrev pub start_files : Text → Files
  start_files name =
      prepared (scratch_of output name) (swept gateway_scratch_prefix a.listing output h)

  abbrev pub extracted : Text → Extracted
  extracted name = extract_tar (scratch_of output name) limit (start_files name) a.archive a.ending

  -- Where the path that MkdirTemp chooses is not registered already, the registry of staging
  -- directories is afterwards as it was, whatever the gateway has sent.
  pub receive-staging :
      Fresh (dir_of output) h.staging a.scratch_name
      → ((receive a limit output h).0).staging ≡ h.staging
  unfolding receive
  receive-staging fresh = elim (Bool-cases (is_refused a.content_type)) [
    | inl wrong ↦ rw wrong refl
    | inr tarred ↦
        let same = swept-staging gateway_scratch_prefix a.listing output h in
        rw tarred (
          staging_below-staging (unpack a limit output) output
            (swept gateway_scratch_prefix a.listing output h) a.scratch_name
            (subst (λ live. Fresh (dir_of output) live a.scratch_name) (sym same) fresh)
          ∙ same)
  ]

  -- At and below the output stands what `extractTar` left at and below the root of the archive.
  abbrev pub Published : Text → Files → Type 0
  Published name after =
      ((extracted name).failure ≡ none)
      × ((t : Text)
          → IsTail t
          → lookup (output ++ t) after.entries
            ≡ lookup (((extracted name).progress).root ++ t)
                (((extracted name).progress).files).entries)

  -- Where fetchFromGateway reports no error of a response with status 200, the archive was
  -- unpacked without one, and at and below the output stands what extractTar left at and below the
  -- archive's root, if the output is neither at or below the staging directory and that root nor
  -- has one of them at or below it.
  pub receive-Published :
      (name : Text)
      → a.scratch_name ≡ ok name
      → ((t : Text) → IsTail t → strip output (((extracted name).progress).root ++ t) ≡ none)
      → ((t : Text) → IsTail t → strip (clean (scratch_of output name)) (output ++ t) ≡ none)
      → (receive a limit output h).1 ≡ none
      → Published name ((receive a limit output h).0).files
  unfolding receive
  receive-Published name chosen apart outside = typed (is_refused a.content_type)
    where
      k : Host
      k = swept gateway_scratch_prefix a.listing output h

      Holds : Host × Option Error → Type 0
      Holds (after, e) = e ≡ none → Published name after.files

      moved :
          (o : Option Error)
          → (extracted name).failure ≡ o
          → (moved_out a.replacing output (extracted name) o).1 ≡ none
          → Published name (moved_out a.replacing output (extracted name) o).0
      moved (some e) failed d = cc
      moved none failed d = (
        failed,
        (replace-published a.replacing ((extracted name).progress).root output
            ((extracted name).progress).files apart d).1,
      )

      claimed : Holds (staging_below (unpack a limit output) output k (ok name))
      claimed d =
          let body = unpack a limit output in
          let (whole, held) =
            moved (extracted name).failure refl
              (sym (staging_below-failure body output k name) ∙ d) in
          (
            whole,
            λ t tail.
                staging_below_other body output k name (output ++ t) (outside t tail) ∙ held t tail,
          )

      typed :
          (b : Bool)
          → Holds (
              if b
              then (h, some (message (codes "gateway served another type")))
              else staging_below (unpack a limit output) output k a.scratch_name)
      typed true d = cc
      typed false d =
          subst (λ n. Holds (staging_below (unpack a limit output) output k n)) (sym chosen) claimed
            d
