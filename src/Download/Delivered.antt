-- ===== src/Download/Delivered.antt =====
-- client/node.go: `node.download` puts every plain node for which there is room at its output.
use ipfs_mobile.Prelude.{◌≡◌, none, ◌∷◌, ◌++◌, arith, ap, sym, ◌∙◌, subst}
use ipfs_mobile.Prelude.Text.{Text}
use ipfs_mobile.Prelude.Int.{ℤ}
use ipfs_mobile.Errors.{ok}
use ipfs_mobile.FilePath.{slash}
use ipfs_mobile.FilePath.Joined.{IsName, join-name}
use ipfs_mobile.Storage.{Files}
use ipfs_mobile.Dag.{Node}
use ipfs_mobile.Staging.{scratch_prefix}
use ipfs_mobile.Replacement.{renamed, alive, unless_ended, replace}
use ipfs_mobile.Scratch.{Host, staging_below}
use ipfs_mobile.Scratch.Filled.{
  Place, Delivered, swept_host, made_files, staged_outcome, scratch-IsBelow, staged-Stands,
  claimed-Delivered,
}
use ipfs_mobile.Download.{
  Session, data_name, finished, staged_in, hinted, after_hint, with_root, download,
}

-- The place is as it has to be, the system calls succeed, and the limit is not below the size that
-- the node declares.
pub record Fair (s : Session) (limit : ℤ) (dir base name : Text) (nd : Node) (h : Host)
    : Type 0 where
  pub place : Place limit dir base name nd h
  pub rooted : s.root ≡ ok nd
  pub scratch_chosen : s.scratch_name ≡ ok name
  pub context_alive : (s.replacing).context ≡ none
  pub renames : (s.replacing).first ≡ none
  pub declared : hinted limit s.size ≡ none

pub data-IsName : IsName data_name
data-IsName = (record { nonempty = λ e. cc; not_dot = λ e. cc; flat = omega arith }, λ e. cc)

module _ (s : Session) (limit : ℤ) (dir base name : Text) (nd : Node) (h : Host)
    (fair : Fair s limit dir base name nd h) where
  abbrev output : Text
  output = dir ++ (slash ∷ base)

  abbrev scratch : Text
  scratch = dir ++ (slash ∷ name)

  abbrev made : Files
  made = made_files scratch_prefix s.listing dir base name h

  -- The node is staged whole, and the first rename moves it onto the output.
  moved : staged_in s limit output nd scratch made ≡ (
    renamed
        (scratch ++ (slash ∷ data_name))
        output
        (staged_outcome scratch_prefix s.listing limit dir base name data_name nd h).files,
    none,
  )
  unfolding replace
  moved =
      let staged = scratch ++ (slash ∷ data_name) in
      let done = staged_outcome scratch_prefix s.listing limit dir base name data_name nd h in
      let stands =
        staged-Stands scratch_prefix s.listing limit dir base name data_name nd h fair.place
          data-IsName in
      let below =
        scratch-IsBelow scratch_prefix s.listing limit dir base name data_name nd h fair.place
          data-IsName in
      rw (join-name scratch data_name below data-IsName) (
        ap (finished s.replacing staged output done) stands.quiet
        ∙ ap (unless_ended s.replacing staged output done.files) fair.context_alive
        ∙ ap (alive s.replacing staged output done.files) fair.renames)

  -- Where the output is a name in a clean directory that is neither the root nor the working
  -- directory and does not end with a slash, MkdirTemp chooses another name there, nothing is at
  -- or below the staging directory and nothing is refused, the context has not ended and the first
  -- rename succeeds, and the root is a node of regular files and directories alone, fetched to
  -- their ends, with valid names and none twice in a directory, which fits in the limit, by its
  -- bytes and by the size that it declares, a download reports no error, and at and below the
  -- output stands exactly what the node holds.
  pub download-Delivered : Delivered nd output (download s limit output h)
  unfolding download
  download-Delivered =
      let k = swept_host scratch_prefix s.listing dir base h in
      let work = staged_in s limit output nd in
      subst (λ r. Delivered nd output (with_root s limit output h r)) (sym fair.rooted)
        (subst (λ o. Delivered nd output (after_hint s limit output h nd o)) (sym fair.declared)
          (subst (λ n. Delivered nd output (staging_below work output k n))
            (sym fair.scratch_chosen)
            (claimed-Delivered scratch_prefix s.listing limit dir base name data_name nd h
              fair.place data-IsName work moved)))
