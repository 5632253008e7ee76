-- ===== src/Dag/Beside.antt =====
-- client/node.go: `materialise` changes nothing beside its path.
use ipfs_mobile.Prelude.{ℕ, ◌≡◌, refl, inl, inr, Option, none, some, ◌∷◌, ◌++◌, sym, ◌∙◌, subst}
use ipfs_mobile.Prelude.Tests.{Bool-cases}
use ipfs_mobile.Prelude.Text.{Text}
use ipfs_mobile.Prelude.Dict.{lookup}
use ipfs_mobile.Prelude.Int.{ℤ}
use ipfs_mobile.Errors.{Error}
use ipfs_mobile.FilePath.{slash, join}
use ipfs_mobile.FilePath.Joined.{IsBelow, join-name}
use ipfs_mobile.Storage.{Files, folder, put, remaining}
use ipfs_mobile.Storage.Kept.{write_limited_beside}
use ipfs_mobile.Dag.{
  Node, Items, symlink, regular, directory, other, end, item, Outcome, and_then, in_folder,
  valid_entry_name, materialise, materialise_items,
}
use ipfs_mobile.Dag.Content.{valid_entry_name-IsName}
use ipfs_mobile.Dag.Places.{IsBelow-name, strip-text_eq, put_beside}
use ipfs_mobile.Staging.{strip}
use ipfs_mobile.Staging.Subtree.{strip-shorter}

module _ (q : Text) where
  abbrev Same : Files → Files → Type 0
  Same fs fs' = lookup q fs'.entries ≡ lookup q fs.entries

  in_folder-Same :
      (fs : Files) (path : Text) (written : ℕ) (o : Option Error) (rest : Files → ℕ → Outcome)
      → strip path q ≡ none
      → ((fs' : Files) (n : ℕ) → Same fs' (rest fs' n).files)
      → Same fs (in_folder fs path written o rest).files
  in_folder-Same fs path written (some e) rest aside k = refl
  in_folder-Same fs path written none rest aside k =
      k (put path folder fs) written ∙ put_beside path q folder fs aside

  and_then-Same :
      (fs : Files) (r : Outcome) (rest : Files → ℕ → Outcome) (o : Option Error)
      → Same fs r.files
      → ((fs' : Files) (n : ℕ) → Same fs' (rest fs' n).files)
      → Same fs (and_then r rest o).files
  and_then-Same fs r rest (some e) h k = h
  and_then-Same fs r rest none h k = k r.files r.written ∙ h

  mutual
    unfolding materialise

    node-Same :
        (nd : Node) (limit : ℤ) (fs : Files) (path : Text) (written : ℕ)
        → IsBelow path
        → strip path q ≡ none
        → Same fs (materialise nd limit fs path written).files
    node-Same (symlink t) limit fs path written below aside = refl
    node-Same other limit fs path written below aside = refl
    node-Same (regular b) limit fs path written below aside =
        write_limited_beside fs path q b (remaining limit written) (strip-text_eq path q aside)
    node-Same (directory items) limit fs path written below aside =
        in_folder-Same fs path written _ (λ fs' n. materialise_items items limit path fs' n) aside
          (λ fs' n. items-Same items limit path fs' n below aside)

    items-Same :
        (items : Items) (limit : ℤ) (path : Text) (fs : Files) (written : ℕ)
        → IsBelow path
        → strip path q ≡ none
        → Same fs (materialise_items items limit path fs written).files
    items-Same (end e) limit path fs written below aside = refl
    items-Same (item name nd rest) limit path fs written below aside =
        elim (Bool-cases (valid_entry_name name)) [
          | inr bad ↦ rw bad refl
          | inl good ↦
              let named = valid_entry_name-IsName name good in
              let first : Same fs (materialise nd limit fs (join path name) written).files =
                subst (λ p. Same fs (materialise nd limit fs p written).files)
                  (sym (join-name path name below named))
                  (node-Same nd limit fs (path ++ (slash ∷ name)) written
                    (IsBelow-name path name below named)
                    (strip-shorter path (slash ∷ name) q refl aside)) in
              rw good (
                and_then-Same fs _ (λ fs' n. materialise_items rest limit path fs' n) _ first
                  (λ fs' n. items-Same rest limit path fs' n below aside))
        ]

-- Below a clean directory, materialise changes nothing that is neither its path nor below it,
-- whatever the node and whatever names its directories give.
pub materialise_beside :
    (nd : Node) (limit : ℤ) (fs : Files) (path q : Text) (written : ℕ)
    → IsBelow path
    → strip path q ≡ none
    → lookup q ((materialise nd limit fs path written).files).entries ≡ lookup q fs.entries
materialise_beside nd limit fs path q written = node-Same q nd limit fs path written
