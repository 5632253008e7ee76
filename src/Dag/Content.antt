-- ===== src/Dag/Content.antt =====
-- client/node.go: what stands at and below a path once `materialise` has written a node there.
use ipfs_mobile.Prelude.{
  ◌≡◌, ◌≢◌, Bool, true, false, not, ◌&&◌, ◌||◌, Option, none, some, [], ◌∷◌, arith, sym, ◌∙◌,
}
use ipfs_mobile.Prelude.Tests.{if◌then◌else◌}
use ipfs_mobile.Prelude.Text.{Text, text_eq, text_eq_iff}
use ipfs_mobile.FilePath.{slash, dot, dot_dot}
use ipfs_mobile.FilePath.Pieces.{Lacks}
use ipfs_mobile.FilePath.Joined.{IsName}
use ipfs_mobile.Storage.{Entry, folder, file}
use ipfs_mobile.Dag.{
  Node, Items, symlink, regular, directory, other, end, item, contains_any, valid_entry_name,
}
use ipfs_mobile.Staging.{strip}

abbrev pub first_of : Option Text → (Text → Option Entry) → Option Entry → Option Entry
first_of (some s) here others = here s
first_of none here others = others

-- What a node holds at a path below it, where the path of the node itself is empty.
unfoldable mutual
  pub content_at : Node → Text → Option Entry
  content_at (symlink target) t = none
  content_at (regular b) t = if text_eq t [] then some (file b.bytes) else none
  content_at (directory items) t = if text_eq t [] then some folder else items_at items t
  content_at other t = none

  pub items_at : Items → Text → Option Entry
  items_at (end e) t = none
  items_at (item name nd rest) t =
      first_of (strip (slash ∷ name) t) (λ s. content_at nd s) (items_at rest t)

-- No name is given twice in a directory.
unfoldable pub named_in : Text → Items → Bool
named_in name (end e) = false
named_in name (item other_name nd rest) = text_eq other_name name || named_in name rest

unfoldable mutual
  pub is_distinct : Node → Bool
  is_distinct (symlink target) = true
  is_distinct (regular b) = true
  is_distinct (directory items) = all_distinct items
  is_distinct other = true

  pub all_distinct : Items → Bool
  all_distinct (end e) = true
  all_distinct (item name nd rest) =
      not (named_in name rest) && (is_distinct nd && all_distinct rest)

contains_any-Lacks : (s : Text) → contains_any s ≡ false → Lacks slash s
unfolding contains_any
contains_any-Lacks [] h = tt
contains_any-Lacks (c ∷ s) h = (ground arith, contains_any-Lacks s (ground arith))

text_ne : (s t : Text) → text_eq s t ≡ false → s ≢ t
text_ne s t h e = absurd (cc (sym h ∙ (text_eq_iff s t).1 e))

-- A name that validEntryName lets through goes down one level.
pub valid_entry_name-IsName : (name : Text) → valid_entry_name name ≡ true → IsName name
unfolding valid_entry_name
valid_entry_name-IsName name h = (
  record {
    nonempty = text_ne name [] (ground arith);
    not_dot = text_ne name dot (ground arith);
    flat = contains_any-Lacks name (ground arith);
  },
  text_ne name dot_dot (ground arith),
)
