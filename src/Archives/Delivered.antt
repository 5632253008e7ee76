-- ===== src/Archives/Delivered.antt =====
-- client/fallback.go: `fetchFromGateway` puts the node that a faithful gateway serves at the output.
use ipfs_mobile.Prelude.{◌≡◌, false, none, ◌∷◌, ◌++◌, ap, ap₂, ◌∙◌}
use ipfs_mobile.Prelude.Lists.{All}
use ipfs_mobile.Prelude.Text.{Text}
use ipfs_mobile.Prelude.Int.{ℤ}
use ipfs_mobile.Errors.{ok}
use ipfs_mobile.FilePath.{slash}
use ipfs_mobile.FilePath.Joined.{IsName}
use ipfs_mobile.Storage.{Files}
use ipfs_mobile.Dag.{Node, Outcome}
use ipfs_mobile.Tar.{extract_tar}
use ipfs_mobile.Tar.Folders.{Folders}
use ipfs_mobile.Staging.{gateway_scratch_prefix}
use ipfs_mobile.Replacement.{renamed, alive, unless_ended, replace}
use ipfs_mobile.Scratch.{Host}
use ipfs_mobile.Scratch.Upward.{scratch-Folders}
use ipfs_mobile.Scratch.Filled.{
  Place, Delivered, swept_host, made_files, staged_outcome, scratch-IsBelow, staged-Stands,
  claimed-Delivered,
}
use ipfs_mobile.Archives.{Arrival, moved_out, unpack, is_refused, receive}
use ipfs_mobile.Archives.Listed.{archive_of}
use ipfs_mobile.Archives.Unpacked.{unpacked_at, extract_tar-materialise}

-- The place is as it has to be, and stands with all that is above it; the archive lists the node
-- under the name `c`; and the system calls succeed.
pub record Faithful (a : Arrival) (limit : ℤ) (dir base name c : Text) (nd : Node) (h : Host)
    : Type 0 where
  pub place : Place limit dir base name nd h
  pub root_name : IsName c
  pub typed : is_refused a.content_type ≡ false
  pub listed : a.archive ≡ archive_of c nd
  pub ended : a.ending ≡ none
  pub names : All (λ e. IsName e.name) a.listing
  pub standing : Folders h.files dir
  pub scratch_chosen : a.scratch_name ≡ ok name
  pub context_alive : (a.replacing).context ≡ none
  pub renames : (a.replacing).first ≡ none

module _ (a : Arrival) (limit : ℤ) (dir base name c : Text) (nd : Node) (h : Host)
    (faithful : Faithful a limit dir base name c nd h) where
  abbrev output : Text
  output = dir ++ (slash ∷ base)

  abbrev scratch : Text
  scratch = dir ++ (slash ∷ name)

  abbrev staged : Text
  staged = scratch ++ (slash ∷ c)

  abbrev k : Host
  k = swept_host gateway_scratch_prefix a.listing dir base h

  abbrev made : Files
  made = made_files gateway_scratch_prefix a.listing dir base name h

  abbrev done : Outcome
  done = staged_outcome gateway_scratch_prefix a.listing limit dir base name c nd h

  made-Folders : Folders made scratch
  made-Folders =
      let place = faithful.place in
      scratch-Folders gateway_scratch_prefix a.listing dir base name h place.below place.base_name
        place.scratch_name faithful.names faithful.standing

  -- The archive is unpacked_at whole, and the first rename moves its root onto the output.
  moved : unpack a limit output scratch made ≡ (renamed staged output done.files, none)
  unfolding replace
  moved =
      let place = faithful.place in
      let prefix = gateway_scratch_prefix in
      let stands =
        staged-Stands prefix a.listing limit dir base name c nd h place faithful.root_name in
      let below =
        scratch-IsBelow prefix a.listing limit dir base name c nd h place faithful.root_name in
      let extracted : extract_tar scratch limit made a.archive a.ending ≡ unpacked_at staged done =
        ap₂ (extract_tar scratch limit made) faithful.listed faithful.ended
        ∙ extract_tar-materialise scratch c nd limit made below faithful.root_name made-Folders
            stands.quiet in
      ap (λ x. moved_out a.replacing output x x.failure) extracted
      ∙ ap (unless_ended a.replacing staged output done.files) faithful.context_alive
      ∙ ap (alive a.replacing staged output done.files) faithful.renames

  -- Where a response with status 200 is a tar archive by its type, if it gives one, and lists a
  -- node of regular files and directories alone, fetched to their ends, with valid names and none
  -- twice in a directory, which fits in the limit, the output is a name in a clean directory that
  -- is neither the root nor the working directory, does not end with a slash and stands with all
  -- above it, ReadDir lists names, MkdirTemp chooses another name there than the output's, nothing
  -- is at or below the staging directory and nothing is refused, the context has not ended and the
  -- first rename succeeds, fetchFromGateway reports no error, and at and below the output stands
  -- exactly what the node holds.
  pub receive-Delivered : Delivered nd output (receive a limit output h)
  unfolding receive
  receive-Delivered =
      rw (faithful.typed, faithful.scratch_chosen)
        (claimed-Delivered gateway_scratch_prefix a.listing limit dir base name c nd h
          faithful.place faithful.root_name (unpack a limit output) moved)
