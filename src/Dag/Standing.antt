-- ===== src/Dag/Standing.antt =====
-- client/node.go: what it is for a node to be written whole at a path.
use ipfs_mobile.Prelude.{ℕ, ◌+◌, ◌≡◌, refl, true, inl, inr, Option, none, some, ◌∷◌, ◌++◌, arith}
use ipfs_mobile.Prelude.Text.{Text}
use ipfs_mobile.Prelude.Dict.{lookup}
use ipfs_mobile.Prelude.Int.{ℤ}
use ipfs_mobile.FilePath.{slash}
use ipfs_mobile.FilePath.Joined.{IsBelow}
use ipfs_mobile.Storage.{Files, Entry}
use ipfs_mobile.Storage.Fitting.{Room}
use ipfs_mobile.Dag.{Node, Items, Outcome}
use ipfs_mobile.Dag.Shape.{is_plain, all_plain, size, size_items}
use ipfs_mobile.Dag.Content.{content_at, items_at, named_in, is_distinct, all_distinct}
use ipfs_mobile.Staging.{strip}
use ipfs_mobile.Staging.Subtree.{IsTail}
use ipfs_mobile.Dag.Places.{Willing, Free}

abbrev pub or_else : Option Entry → Option Entry → Option Entry
or_else (some e) o = some e
or_else none o = o

pub or_else-none : (o : Option Entry) → or_else o none ≡ o
or_else-none none = refl
or_else-none (some e) = refl

-- The node has been written whole: below its path stands what it holds, and elsewhere nothing has
-- changed.
pub record Stands (nd : Node) (fs : Files) (path : Text) (written : ℕ) (r : Outcome) : Type 0 where
  pub quiet : r.failure ≡ none
  pub counted : r.written ≡ written + size nd
  pub willing : Willing r.files
  pub below : (t : Text) → IsTail t → lookup (path ++ t) (r.files).entries ≡ content_at nd t
  pub beside : (q : Text) → strip path q ≡ none → lookup q (r.files).entries ≡ lookup q fs.entries

-- The same of the entries of a directory, whose own path is `path`.
pub record Filled (items : Items) (fs : Files) (path : Text) (written : ℕ) (r : Outcome)
    : Type 0 where
  pub quiet : r.failure ≡ none
  pub counted : r.written ≡ written + size_items items
  pub willing : Willing r.files
  pub below :
      (t : Text)
      → IsTail t
      → lookup (path ++ t) (r.files).entries
        ≡ or_else (items_at items t) (lookup (path ++ t) fs.entries)
  pub beside : (q : Text) → strip path q ≡ none → lookup q (r.files).entries ≡ lookup q fs.entries

abbrev pub FreeNames : Items → Text → Files → Type 0
FreeNames items path fs =
    (name : Text) → named_in name items ≡ true → Free (path ++ (slash ∷ name)) fs

pub Room-first : (limit : ℤ) (w a b : ℕ) → Room limit w (a + b) → Room limit w a
Room-first limit w a b (inl off) = inl off
Room-first limit w a b (inr (l, e, p, s, le)) = inr (l, e, p, s, omega arith)

pub Room-rest : (limit : ℤ) (w a b n : ℕ) → n ≡ w + a → Room limit w (a + b) → Room limit n b
Room-rest limit w a b n h (inl off) = inl off
Room-rest limit w a b n h (inr (l, e, p, s, le)) = inr (l, e, p, s, omega arith)

-- The hypotheses on a node and on the entries of a directory.
abbrev pub Ready : ℤ → Node → Files → Text → ℕ → Type 0
Ready limit nd fs path written =
    (is_plain nd ≡ true)
    × (is_distinct nd ≡ true)
    × Room limit written (size nd)
    × Willing fs
    × IsBelow path
    × Free path fs

abbrev pub ReadyItems : ℤ → Items → Files → Text → ℕ → Type 0
ReadyItems limit items fs path written =
    (all_plain items ≡ true)
    × (all_distinct items ≡ true)
    × Room limit written (size_items items)
    × Willing fs
    × IsBelow path
    × FreeNames items path fs
