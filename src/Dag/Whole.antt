-- ===== src/Dag/Whole.antt =====
-- client/node.go: `materialise` writes every plain node for which there is room, and leaves the
-- files of a reference definition.
use ipfs_mobile.Prelude.{ℕ, ◌∷◌, ◌++◌}
use ipfs_mobile.Prelude.Text.{Text}
use ipfs_mobile.Prelude.Int.{ℤ}
use ipfs_mobile.FilePath.{slash}
use ipfs_mobile.Storage.{Files, folder, put}
use ipfs_mobile.Dag.{
  Node, Items, symlink, regular, directory, other, end, item, materialise, materialise_items,
}
use ipfs_mobile.Dag.Shape.{is_plain, size}
use ipfs_mobile.Dag.Content.{is_distinct}
use ipfs_mobile.Dag.Places.{Free-self}
use ipfs_mobile.Dag.Standing.{Stands, Filled, Ready, ReadyItems}
use ipfs_mobile.Dag.Cases.{regular-Stands, directory-Stands, put-FreeNames, end-Filled}
use ipfs_mobile.Dag.Entries.{plain_parts, join-here, first-Ready, rest-Ready, item-Filled}

mutual
  unfolding materialise is_plain size is_distinct

  node-Stands :
      (nd : Node) (limit : ℤ) (fs : Files) (path : Text) (written : ℕ)
      → Ready limit nd fs path written
      → Stands nd fs path written (materialise nd limit fs path written)
  node-Stands (symlink t) limit fs path written ready = cc (ready.0)
  node-Stands other limit fs path written ready = cc (ready.0)
  node-Stands (regular b) limit fs path written (plain, distinct, room, willing, at, free) =
      regular-Stands b.bytes b.failure limit fs path written plain room willing free
  node-Stands (directory items) limit fs path written (plain, distinct, room, willing, at, free) =
      rw (Free-self path fs free, willing path)
        (directory-Stands limit items fs path written _ free (
          items-Filled items limit path (put path folder fs) written
            (plain, distinct, room, willing, at, put-FreeNames items path fs free)))

  items-Filled :
      (items : Items) (limit : ℤ) (path : Text) (fs : Files) (written : ℕ)
      → ReadyItems limit items fs path written
      → Filled items fs path written (materialise_items items limit path fs written)
  items-Filled (end f) limit path fs written (plain, distinct, room, willing, at, free) =
      end-Filled f limit path fs written plain willing
  items-Filled (item name nd rest) limit path fs written ready =
      let r = materialise nd limit fs (path ++ (slash ∷ name)) written in
      let first =
        node-Stands nd limit fs (path ++ (slash ∷ name)) written
          (first-Ready limit name nd rest fs path written ready) in
      rw
        (
          (plain_parts limit name nd rest fs path written ready).0,
          join-here limit name nd rest fs path written ready,
          first.quiet,
        )
        (item-Filled limit name nd rest fs path written ready r first _ (
          items-Filled rest limit path r.files r.written
            (rest-Ready limit name nd rest fs path written ready r first)))

-- Where a node has only regular files and directories, all fetched to their ends, valid names and
-- none twice in a directory, there is room for its bytes, nothing is refused, and the path is
-- itself clean and neither the root nor the working directory, with nothing at or below it,
-- materialise reports no error, has counted exactly the node's bytes, and leaves at and below the
-- path exactly what the node holds and everything else as it was.
pub materialise-Stands :
    (nd : Node) (limit : ℤ) (fs : Files) (path : Text) (written : ℕ)
    → Ready limit nd fs path written
    → Stands nd fs path written (materialise nd limit fs path written)
materialise-Stands = node-Stands
