-- ===== src/Archives/Unpacked.antt =====
-- client/fallback.go, client/node.go: `extractTar` of the archive of a node does what `materialise`
-- does with the node.
use ipfs_mobile.Prelude.{
  ℕ, ◌≡◌, ◌≢◌, inl, inr, refl, Option, none, some, List, [], ◌∷◌, ◌++◌, ap, sym, ◌∙◌, append_assoc,
  append-nil, subst,
}
use ipfs_mobile.Prelude.Tests.{Bool-cases}
use ipfs_mobile.Prelude.Text.{Text, text_eq_refl}
use ipfs_mobile.Prelude.Dict.{lookup-insert}
use ipfs_mobile.Prelude.Int.{ℤ}
use ipfs_mobile.Errors.{Error}
use ipfs_mobile.FilePath.{slash, join}
use ipfs_mobile.FilePath.Joined.{IsName, IsBelow, IsBelow-nonempty, join-name}
use ipfs_mobile.Storage.{Files, folder, put}
use ipfs_mobile.Storage.Kept.{put-Keeps, may_create-none}
use ipfs_mobile.Dag.{
  Node, Items, symlink, regular, directory, other, end, item, Outcome, and_then, in_folder,
  valid_entry_name, materialise, materialise_items,
}
use ipfs_mobile.Dag.Shape.{and_then-none, in_folder-none}
use ipfs_mobile.Dag.Content.{valid_entry_name-IsName}
use ipfs_mobile.Dag.Places.{IsBelow-name}
use ipfs_mobile.Dag.Kept.{materialise-Keeps}
use ipfs_mobile.Tar.{Header, Progress, Extracted, extract_from, extract_tar}
use ipfs_mobile.Tar.Folders.{Folders, text_eq-nonempty, Folders-Keeps, Folders-name}
use ipfs_mobile.Archives.Listed.{
  archive_of, archive_of_items, Spot, root-Spot, child-Spot, RootedAt, file-step, folder-step,
}

in_folder-created :
    (fs : Files) (path : Text) (written : ℕ) (f : Option Error) (rest : Files → ℕ → Outcome)
    → (in_folder fs path written f rest).failure ≡ none
    → f ≡ none
in_folder-created fs path written none rest h = refl
in_folder-created fs path written (some e) rest h = cc

module _ (dir c : Text) (below : IsBelow dir) (limit : ℤ) (ending : Option Error) where
  -- `extractTar` with these entries in front goes on as from what `materialise` leaves.
  abbrev Continues : List Header → Progress → Outcome → Type 0
  Continues listed p r =
      (hs : List Header)
      → extract_from dir limit p (listed ++ hs) ending
        ≡ extract_from dir limit
            (record { files = r.files; root = dir ++ (slash ∷ c); written = r.written }) hs ending

  mutual
    unfolding materialise archive_of

    node-Continues :
        (nd : Node) (at parent n : Text) (p : Progress)
        → Spot dir c at parent n
        → RootedAt p (dir ++ (slash ∷ c))
        → Folders p.files parent
        → (materialise nd limit p.files (parent ++ (slash ∷ n)) p.written).failure ≡ none
        → Continues
            (archive_of at nd)
            p
            (materialise nd limit p.files (parent ++ (slash ∷ n)) p.written)
    node-Continues (symlink t) at parent n p spot root standing h = cc
    node-Continues other at parent n p spot root standing h = cc
    node-Continues (regular b) at parent n p spot root standing h =
        λ hs. file-step dir c at parent n spot below limit p hs ending root standing b h
    node-Continues (directory items) at parent n p spot root standing h =
        let path = parent ++ (slash ∷ n) in
        let rest : Files → ℕ → Outcome = λ fs' k. materialise_items items limit path fs' k in
        let (free, willing) =
          may_create-none p.files path _ _ (in_folder-created p.files path p.written _ rest h) in
        let e = in_folder-none p.files path p.written _ rest h in
        let made = put path folder p.files in
        subst (Continues (archive_of at (directory items)) p) (sym e) (λ hs.
          folder-step dir c at parent n spot below limit p (archive_of_items at items ++ hs) ending
            root standing free willing
          ∙ items-Continues items at parent n
              (record { files = made; root = dir ++ (slash ∷ c); written = p.written }) spot refl
              (Folders-name made parent n (IsBelow-nonempty parent spot.below) ((spot.name).0).flat
                (Folders-Keeps p.files made parent (put-Keeps path folder p.files free) standing)
                (rw (lookup-insert, text_eq_refl path) refl))
              (subst (λ r. r.failure ≡ none) e h) hs)

    items-Continues :
        (items : Items) (at parent n : Text) (p : Progress)
        → Spot dir c at parent n
        → p.root ≡ dir ++ (slash ∷ c)
        → Folders p.files (parent ++ (slash ∷ n))
        → (materialise_items items limit (parent ++ (slash ∷ n)) p.files p.written).failure ≡ none
        → Continues
            (archive_of_items at items)
            p
            (materialise_items items limit (parent ++ (slash ∷ n)) p.files p.written)
    items-Continues (end e) at parent n p spot root standing h =
        λ hs. ap (λ t. extract_from dir limit (record p { root = t }) hs ending) root
    items-Continues (item name nd rest) at parent n p spot root standing h =
        elim (Bool-cases (valid_entry_name name)) [
          | inr bad ↦ absurd (cc (rw bad at h))
          | inl good ↦
              let path = parent ++ (slash ∷ n) in
              let here = path ++ (slash ∷ name) in
              let named = valid_entry_name-IsName name good in
              let joined : join path name ≡ here =
                join-name path name (IsBelow-name parent n spot.below spot.name) named in
              let r = materialise nd limit p.files here p.written in
              let more : Files → ℕ → Outcome = λ fs' k. materialise_items rest limit path fs' k in
              let opened : materialise_items (item name nd rest) limit path p.files p.written
                  ≡ and_then r more r.failure =
                rw (good, joined) refl in
              let (quiet, e, h') =
                and_then-none r more r.failure refl (subst (λ x. x.failure ≡ none) opened h) in
              let first =
                node-Continues nd (at ++ (slash ∷ name)) path name p
                  (child-Spot dir c at parent n name spot named) (inr root) standing quiet in
              let others =
                items-Continues rest at parent n
                  (record { files = r.files; root = dir ++ (slash ∷ c); written = r.written }) spot
                  refl
                  (Folders-Keeps p.files r.files path
                    (materialise-Keeps nd limit p.files here p.written) standing)
                  h' in
              subst (Continues (archive_of_items at (item name nd rest)) p) (sym (opened ∙ e))
                (λ hs.
                  ap (λ l. extract_from dir limit p l ending)
                    (append_assoc (archive_of (at ++ (slash ∷ name)) nd) (archive_of_items at rest)
                      hs)
                  ∙ first (archive_of_items at rest ++ hs)
                  ∙ others hs)
        ]

append_slash-nonempty : (d s : Text) → d ++ (slash ∷ s) ≢ []
append_slash-nonempty [] s e = cc
append_slash-nonempty (x ∷ d) s e = cc

-- What `extractTar` returns where it has made what `materialise` makes, below this root.
abbrev pub unpacked_at : Text → Outcome → Extracted
unpacked_at root r = record {
  progress = record { files = r.files; root = root; written = r.written };
  failure = none;
}

ended_at :
    (dir c : Text) (limit : ℤ) (r : Outcome)
    → extract_from dir limit (unpacked_at (dir ++ (slash ∷ c)) r).progress [] none
      ≡ unpacked_at (dir ++ (slash ∷ c)) r
unfolding extract_from
ended_at dir c limit r =
    rw (text_eq-nonempty (dir ++ (slash ∷ c)) (append_slash-nonempty dir c)) refl

-- Of the archive that lists a node, a directory before what it holds, under one name below a clean
-- directory that is neither the root nor the working directory and stands with all above it,
-- extractTar makes without an error the files and the count that materialise makes of the node at
-- that path, and returns the path as the root, whenever materialise ends without an error.
pub extract_tar-materialise :
    (dir c : Text) (nd : Node) (limit : ℤ) (fs : Files)
    → IsBelow dir
    → IsName c
    → Folders fs dir
    → (materialise nd limit fs (dir ++ (slash ∷ c)) 0).failure ≡ none
    → extract_tar dir limit fs (archive_of c nd) none
      ≡ unpacked_at (dir ++ (slash ∷ c)) (materialise nd limit fs (dir ++ (slash ∷ c)) 0)
unfolding extract_tar
extract_tar-materialise dir c nd limit fs below named standing quiet =
    let start : Progress = record { files = fs; root = []; written = 0 } in
    ap (λ l. extract_from dir limit start l none) (sym (append-nil (archive_of c nd)))
    ∙ node-Continues dir c below limit none nd c dir c start (root-Spot dir c below named)
        (inl refl) standing quiet []
    ∙ ended_at dir c limit (materialise nd limit fs (dir ++ (slash ∷ c)) 0)
