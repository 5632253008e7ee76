-- ===== src/Scratch/Filled.antt =====
-- client/node.go: a node that is written whole in the staging directory, and renamed onto the output.
use ipfs_mobile.Prelude.{
  ◌≡◌, refl, true, false, Option, none, List, ◌∷◌, ◌++◌, ap, sym, ◌∙◌, subst, append_assoc,
}
use ipfs_mobile.Prelude.Text.{Text, text_eq}
use ipfs_mobile.Prelude.Dict.{lookup}
use ipfs_mobile.Prelude.Int.{ℤ}
use ipfs_mobile.Errors.{Error, ok}
use ipfs_mobile.FilePath.{slash, clean}
use ipfs_mobile.FilePath.Joined.{IsName, IsBelow}
use ipfs_mobile.FilePath.Parents.{dir_of-append}
use ipfs_mobile.Storage.{Files, folder, put}
use ipfs_mobile.Storage.Fitting.{Room}
use ipfs_mobile.Dag.{Node, Outcome, materialise}
use ipfs_mobile.Dag.Shape.{is_plain, size}
use ipfs_mobile.Dag.Content.{content_at, is_distinct}
use ipfs_mobile.Dag.Places.{Willing, Free, IsBelow-name, below_apart, put_below}
use ipfs_mobile.Dag.Standing.{Stands}
use ipfs_mobile.Dag.Whole.{materialise-Stands}
use ipfs_mobile.Staging.{DirEntry, ends_slash, temp_path, strip}
use ipfs_mobile.Staging.Subtree.{IsTail, strip-prefix, rename_moved}
use ipfs_mobile.Replacement.{renamed}
use ipfs_mobile.Scratch.{Host, swept, prepared, staging_below}
use ipfs_mobile.Scratch.Released.{
  scratch_of, staging_below-failure, staging_below_other, swept_absent, swept-refuses,
}

-- The output is a name in a clean directory, and so is the staging directory, under another name,
-- with nothing there yet and nothing refused; and the node is plain, has no name twice in a
-- directory, and its bytes fit in the limit.
pub record Place (limit : ℤ) (dir base name : Text) (nd : Node) (h : Host) : Type 0 where
  pub below : IsBelow dir
  pub slashless : ends_slash dir ≡ false
  pub base_name : IsName base
  pub scratch_name : IsName name
  pub different : text_eq name base ≡ false
  pub plain : is_plain nd ≡ true
  pub distinct : is_distinct nd ≡ true
  pub room : Room limit 0 (size nd)
  pub willing : Willing h.files
  pub free : Free (dir ++ (slash ∷ name)) h.files

-- No error, and what the node holds at and below the output.
abbrev pub Delivered : Node → Text → Host × Option Error → Type 0
Delivered nd output r =
    (r.1 ≡ none)
    × ((t : Text) → IsTail t → lookup (output ++ t) ((r.0).files).entries ≡ content_at nd t)

pub scratch_of-name :
    (dir base name : Text)
    → IsBelow dir
    → ends_slash dir ≡ false
    → IsName base
    → scratch_of (dir ++ (slash ∷ base)) name ≡ dir ++ (slash ∷ name)
unfolding temp_path
scratch_of-name dir base name below slashless named =
    ap (λ d. temp_path d name) (dir_of-append dir base below (named.0).flat) ∙ rw slashless

-- The staging directory, as it is made after a sweep, and the node in it under the name `c`.
abbrev pub swept_host : Text → List DirEntry → Text → Text → Host → Host
swept_host prefix listing dir base h = swept prefix listing (dir ++ (slash ∷ base)) h

abbrev pub made_files : Text → List DirEntry → Text → Text → Text → Host → Files
made_files prefix listing dir base name h =
    put (dir ++ (slash ∷ name)) folder (swept_host prefix listing dir base h).files

abbrev pub staged_outcome :
    Text → List DirEntry → ℤ → Text → Text → Text → Text → Node → Host → Outcome
staged_outcome prefix listing limit dir base name c nd h =
    materialise nd limit (made_files prefix listing dir base name h)
      (dir ++ (slash ∷ name) ++ (slash ∷ c)) 0

module _ (prefix : Text) (listing : List DirEntry) (limit : ℤ) (dir base name c : Text) (nd : Node)
    (h : Host) (place : Place limit dir base name nd h) (named : IsName c) where
  abbrev output : Text
  output = dir ++ (slash ∷ base)

  abbrev scratch : Text
  scratch = dir ++ (slash ∷ name)

  abbrev k : Host
  k = swept_host prefix listing dir base h

  abbrev made : Files
  made = made_files prefix listing dir base name h

  abbrev staged : Text
  staged = scratch ++ (slash ∷ c)

  abbrev done : Outcome
  done = staged_outcome prefix listing limit dir base name c nd h

  pub scratch-IsBelow : IsBelow scratch
  scratch-IsBelow = IsBelow-name dir name place.below place.scratch_name

  staged-Free : Free staged made
  unfolding text_eq
  staged-Free t tail =
      ap (λ q. lookup q made.entries) (append_assoc scratch (slash ∷ c) t)
      ∙ put_below scratch (slash ∷ c ++ t) folder k.files
      ∙ swept_absent prefix listing output (scratch ++ (slash ∷ c ++ t)) h
          (place.free (slash ∷ c ++ t) refl)

  pub staged-Stands : Stands nd made staged 0 done
  staged-Stands = materialise-Stands nd limit made staged 0 (
    place.plain,
    place.distinct,
    place.room,
    (λ p. ap (λ f. f p) (swept-refuses prefix listing output h) ∙ place.willing p),
    IsBelow-name scratch c scratch-IsBelow named,
    staged-Free,
  )

  -- The work in the staging directory, wherever that is, and that it is not where the output is.
  abbrev Works : (Text → Files → Files × Option Error) → Text → Type 0
  Works work at =
      ((work at (prepared at k)).1 ≡ none)
      × ((t : Text)
          → IsTail t
          → (lookup (output ++ t) ((work at (prepared at k)).0).entries ≡ content_at nd t)
            × (strip (clean at) (output ++ t) ≡ none))

  scratch-Works :
      (work : Text → Files → Files × Option Error)
      → work scratch made ≡ (renamed staged output done.files, none)
      → Works work scratch
  scratch-Works work moved =
      rw (scratch-IsBelow.is_clean, moved)
        (
          refl,
          λ t tail. (
            rename_moved staged output t (done.files).entries tail ∙ staged-Stands.below t tail,
            ap (strip scratch) (append_assoc dir (slash ∷ base) t)
                ∙ strip-prefix dir (slash ∷ name) (slash ∷ base ++ t)
                ∙ below_apart name base t place.scratch_name place.base_name place.different tail,
          ),
        )

  -- Work that writes the node and renames it onto the output delivers it, once the staging directory
  -- is released.
  pub claimed-Delivered :
      (work : Text → Files → Files × Option Error)
      → work scratch made ≡ (renamed staged output done.files, none)
      → Delivered nd output (staging_below work output k (ok name))
  claimed-Delivered work moved =
      let (quiet, there) =
        subst (Works work)
          (sym (scratch_of-name dir base name place.below place.slashless place.base_name))
          (scratch-Works work moved) in
      (
        staging_below-failure work output k name ∙ quiet,
        λ t tail.
            staging_below_other work output k name (output ++ t) (there t tail).1
            ∙ (there t tail).0,
      )
