-- ===== src/Dag/Kept.antt =====
-- client/node.go: `materialise` leaves all that stood before.
use ipfs_mobile.Prelude.{ℕ, ◌≡◌, refl, inl, inr, Option, none, some}
use ipfs_mobile.Prelude.Tests.{Bool-cases}
use ipfs_mobile.Prelude.Text.{Text}
use ipfs_mobile.Prelude.Dict.{lookup}
use ipfs_mobile.Prelude.Int.{ℤ}
use ipfs_mobile.Errors.{Error}
use ipfs_mobile.FilePath.{join}
use ipfs_mobile.Storage.{Files, folder, put, may_create, remaining}
use ipfs_mobile.Storage.Kept.{Keeps, put-Keeps, may_create-none, write_limited-Keeps}
use ipfs_mobile.Dag.{
  Node, Items, symlink, regular, directory, other, end, item, Outcome, and_then, in_folder,
  valid_entry_name, materialise, materialise_items,
}

in_folder-Keeps :
    (fs : Files) (path : Text) (written : ℕ) (o : Option Error) (rest : Files → ℕ → Outcome)
    → may_create fs path (fs.refuses path) (lookup path fs.entries) ≡ o
    → ((fs' : Files) (n : ℕ) → Keeps fs' (rest fs' n).files)
    → Keeps fs (in_folder fs path written o rest).files
in_folder-Keeps fs path written (some e) rest h k = λ q e' at. at
in_folder-Keeps fs path written none rest h k = λ q e at.
    k (put path folder fs) written q e
      (put-Keeps path folder fs (may_create-none fs path _ _ h).0 q e at)

and_then-Keeps :
    (fs : Files) (r : Outcome) (rest : Files → ℕ → Outcome) (o : Option Error)
    → Keeps fs r.files
    → ((fs' : Files) (n : ℕ) → Keeps fs' (rest fs' n).files)
    → Keeps fs (and_then r rest o).files
and_then-Keeps fs r rest (some e) h k = h
and_then-Keeps fs r rest none h k = λ q e at. k r.files r.written q e (h q e at)

mutual
  unfolding materialise

  node-Keeps :
      (nd : Node) (limit : ℤ) (fs : Files) (path : Text) (written : ℕ)
      → Keeps fs (materialise nd limit fs path written).files
  node-Keeps (symlink t) limit fs path written = λ q e at. at
  node-Keeps other limit fs path written = λ q e at. at
  node-Keeps (regular b) limit fs path written =
      write_limited-Keeps fs path b (remaining limit written)
  node-Keeps (directory items) limit fs path written =
      in_folder-Keeps fs path written _ (λ fs' n. materialise_items items limit path fs' n) refl
        (λ fs' n. items-Keeps items limit path fs' n)

  items-Keeps :
      (items : Items) (limit : ℤ) (path : Text) (fs : Files) (written : ℕ)
      → Keeps fs (materialise_items items limit path fs written).files
  items-Keeps (end e) limit path fs written = λ q e' at. at
  items-Keeps (item name nd rest) limit path fs written =
      let rec = node-Keeps nd limit fs (join path name) written in
      let more : (fs' : Files) (n : ℕ) → Keeps fs' (materialise_items rest limit path fs' n).files =
        λ fs' n. items-Keeps rest limit path fs' n in
      elim (Bool-cases (valid_entry_name name)) [
        | inr bad ↦ rw bad (λ q e at. at)
        | inl good ↦
            rw good
              (and_then-Keeps fs _ (λ fs' n. materialise_items rest limit path fs' n) _ rec more)
      ]

-- Whatever the node and however it ends, materialise leaves every file and folder that stood before
-- as it was.
pub materialise-Keeps :
    (nd : Node) (limit : ℤ) (fs : Files) (path : Text) (written : ℕ)
    → Keeps fs (materialise nd limit fs path written).files
materialise-Keeps = node-Keeps
