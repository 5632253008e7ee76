-- ===== src/Download/Released.antt =====
-- client/node.go: `node.download` gives back what it claims on every path, and what it publishes.
use ipfs_mobile.Prelude.{◌≡◌, refl, true, false, Option, none, some, ◌++◌, ap, sym, ◌∙◌, subst}
use ipfs_mobile.Prelude.Text.{Text}
use ipfs_mobile.Prelude.Dict.{lookup}
use ipfs_mobile.Prelude.Int.{ℤ}
use ipfs_mobile.Errors.{Error, Result, ok, err}
use ipfs_mobile.FilePath.{clean, dir_of, join}
use ipfs_mobile.Storage.{Files}
use ipfs_mobile.Dag.{Node, materialise}
use ipfs_mobile.Dag.Shape.{Within, is_plain, materialise-plain}
use ipfs_mobile.Staging.{strip, scratch_prefix}
use ipfs_mobile.Staging.Subtree.{IsTail}
use ipfs_mobile.Scratch.{Host, swept, prepared, staging_below}
use ipfs_mobile.Scratch.Released.{
  Fresh, scratch_of, staging_below-staging, staging_below_nothing, staging_below_other,
  staging_below-failure, swept-staging, swept-stays,
}
use ipfs_mobile.Replacement.Published.{replace-published}
use ipfs_mobile.Download.{
  Session, data_name, finished, staged_in, hinted, after_hint, with_root, download,
}

-- Where the path that MkdirTemp chooses is not registered already, a download leaves the registry
-- of staging directories as it found it, whatever fails on its way.
pub download-staging :
    (s : Session) (limit : ℤ) (output : Text) (h : Host)
    → Fresh (dir_of output) h.staging s.scratch_name
    → ((download s limit output h).0).staging ≡ h.staging
unfolding download
download-staging s limit output h fresh = rooted s.root
  where
    k : Host
    k = swept scratch_prefix s.listing output h

    same : k.staging ≡ h.staging
    same = swept-staging scratch_prefix s.listing output h

    checked :
        (nd : Node) (o : Option Error) → ((after_hint s limit output h nd o).0).staging ≡ h.staging
    checked nd (some e) = refl
    checked nd none =
        staging_below-staging (staged_in s limit output nd) output k s.scratch_name
          (subst (λ live. Fresh (dir_of output) live s.scratch_name) (sym same) fresh)
        ∙ same

    rooted : (r : Result Node) → ((with_root s limit output h r).0).staging ≡ h.staging
    rooted (err e) = refl
    rooted (ok nd) = checked nd (hinted limit s.size)

-- At and below the staging directory of a download, where nothing was before it, nothing is left
-- but what os.RemoveAll fails to remove, whatever else fails on its way.
pub download_leaves_nothing :
    (s : Session) (limit : ℤ) (output name : Text) (h : Host)
    → s.scratch_name ≡ ok name
    → (t : Text) → IsTail t
    → lookup (clean (scratch_of output name) ++ t) (h.files).entries ≡ none
    → h.stays (clean (scratch_of output name) ++ t) ≡ false
    → lookup (clean (scratch_of output name) ++ t) (((download s limit output h).0).files).entries
      ≡ none
unfolding download
download_leaves_nothing s limit output name h chosen t tail absent gone = rooted s.root
  where
    k : Host
    k = swept scratch_prefix s.listing output h

    checked :
        (nd : Node) (o : Option Error)
        → lookup
            (clean (scratch_of output name) ++ t)
            (((after_hint s limit output h nd o).0).files).entries
          ≡ none
    checked nd (some e) = absent
    checked nd none =
        subst
          (λ n.
            lookup (clean (scratch_of output name) ++ t)
              (((staging_below (staged_in s limit output nd) output k n).0).files).entries
            ≡ none)
          (sym chosen)
          (staging_below_nothing (staged_in s limit output nd) output k name t tail (
            ap (λ f. f (clean (scratch_of output name) ++ t))
              (swept-stays scratch_prefix s.listing output h)
            ∙ gone))

    rooted :
        (r : Result Node)
        → lookup
            (clean (scratch_of output name) ++ t)
            (((with_root s limit output h r).0).files).entries
          ≡ none
    rooted (err e) = absent
    rooted (ok nd) = checked nd (hinted limit s.size)

-- The path that is staged, below the directory of a name that `MkdirTemp` chooses.
abbrev pub staged_at : Text → Text → Text
staged_at output name = join (scratch_of output name) data_name

-- Below the output is what `materialise` wrote, starting from the files `fs`, of a plain node.
abbrev pub Holds : Session → ℤ → Text → Text → Files → Files → Type 0
Holds s limit output name fs after =
    (nd : Node) × (s.root ≡ ok nd)
    × (is_plain nd ≡ true)
    × ((t : Text)
        → IsTail t
        → lookup (output ++ t) after.entries
          ≡ lookup (staged_at output name ++ t)
              ((materialise nd limit fs (staged_at output name) 0).files).entries)

-- With the limit off, or positive and below the largest int64, and an output that is neither at or
-- below the staging directory and the staged path nor has one of them at or below it, a download
-- that reports no error has written a node of regular files and directories alone, and leaves at
-- and below the output what materialise wrote of it, starting from the swept files with the
-- staging directory.
pub download-Holds :
    (s : Session) (limit : ℤ) (output name : Text) (h : Host)
    → Within limit 0
    → s.scratch_name ≡ ok name
    → ((t : Text) → IsTail t → strip output (staged_at output name ++ t) ≡ none)
    → ((t : Text) → IsTail t → strip (clean (scratch_of output name)) (output ++ t) ≡ none)
    → (download s limit output h).1 ≡ none
    → Holds s limit output name
        (prepared (scratch_of output name) (swept scratch_prefix s.listing output h))
        ((download s limit output h).0).files
unfolding download
download-Holds s limit output name h within chosen apart outside done = rooted s.root refl done
  where
    k : Host
    k = swept scratch_prefix s.listing output h

    made : Files
    made = prepared (scratch_of output name) k

    After : Node → Result Text → Type 0
    After nd n =
        (staging_below (staged_in s limit output nd) output k n).1 ≡ none
        → Holds s limit output name made
            ((staging_below (staged_in s limit output nd) output k n).0).files

    ended :
        (nd : Node) (o : Option Error)
        → s.root ≡ ok nd
        → (materialise nd limit made (staged_at output name) 0).failure ≡ o
        → (finished s.replacing
            (staged_at output name)
            output
            (materialise nd limit made (staged_at output name) 0)
            o).1
          ≡ none
        → Holds s limit output name made
            (finished s.replacing
              (staged_at output name)
              output
              (materialise nd limit made (staged_at output name) 0)
              o).0
    ended nd (some e) r failed d = cc
    ended nd none r failed d = (
      nd,
      r,
      (materialise-plain nd limit made (staged_at output name) 0 within failed).0,
      (replace-published s.replacing (staged_at output name) output
          (materialise nd limit made (staged_at output name) 0).files apart d).1,
    )

    claimed : (nd : Node) → s.root ≡ ok nd → After nd (ok name)
    claimed nd r d =
        let body = staged_in s limit output nd in
        let (nd', r', plain, held) =
          ended nd _ r refl (sym (staging_below-failure body output k name) ∙ d) in
        (
          nd',
          r',
          plain,
          λ t tail.
              staging_below_other body output k name (output ++ t) (outside t tail) ∙ held t tail,
        )

    checked :
        (nd : Node) (o : Option Error)
        → s.root ≡ ok nd
        → (after_hint s limit output h nd o).1 ≡ none
        → Holds s limit output name made ((after_hint s limit output h nd o).0).files
    checked nd (some e) r d = cc
    checked nd none r d = subst (After nd) (sym chosen) (claimed nd r) d

    rooted :
        (r : Result Node)
        → s.root ≡ r
        → (with_root s limit output h r).1 ≡ none
        → Holds s limit output name made ((with_root s limit output h r).0).files
    rooted (err e) r d = cc
    rooted (ok nd) r d = checked nd (hinted limit s.size) r d
