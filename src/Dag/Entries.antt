-- ===== src/Dag/Entries.antt =====
-- client/node.go: one entry of a directory is written whole, and then the others.
use ipfs_mobile.Prelude.{
  ℕ, ◌≡◌, refl, true, false, inl, inr, Option, none, some, ◌∷◌, ◌++◌, arith, ap, sym, ◌∙◌, subst,
  append_assoc,
}
use ipfs_mobile.Prelude.Tests.{Bool-cases}
use ipfs_mobile.Prelude.Text.{Text, text_eq, text_eq_iff, text_eq_refl}
use ipfs_mobile.Prelude.Dict.{lookup}
use ipfs_mobile.Prelude.Int.{ℤ}
use ipfs_mobile.FilePath.{slash, join}
use ipfs_mobile.FilePath.Joined.{IsName, join-name}
use ipfs_mobile.Storage.{Files}
use ipfs_mobile.Dag.{Node, Items, end, item, Outcome, valid_entry_name}
use ipfs_mobile.Dag.Shape.{is_plain, all_plain, size, size_items}
use ipfs_mobile.Dag.Content.{
  first_of, content_at, items_at, named_in, is_distinct, all_distinct, valid_entry_name-IsName,
}
use ipfs_mobile.Staging.{strip}
use ipfs_mobile.Staging.Subtree.{IsTail, strip-some, strip-IsTail, strip-prefix, strip-shorter}
use ipfs_mobile.Dag.Places.{below_apart, IsBelow-name, Free}
use ipfs_mobile.Dag.Standing.{
  or_else, or_else-none, Stands, Filled, FreeNames, Room-first, Room-rest, Ready, ReadyItems,
}

-- No other entry is where a name leads that the directory does not have.
pub items_at-absent :
    (items : Items) (name t : Text)
    → all_plain items ≡ true
    → IsName name
    → named_in name items ≡ false
    → IsTail t
    → items_at items (slash ∷ name ++ t) ≡ none
unfolding items_at named_in all_plain
items_at-absent (end e) name t plain hn absent tail = refl
items_at-absent (item other_name nd rest) name t plain hn absent tail =
    rw
      (below_apart other_name name t (valid_entry_name-IsName other_name (ground arith)) hn
        (ground arith) tail)
      (items_at-absent rest name t (ground arith) hn (ground arith) tail)

pub named_in-IsName :
    (items : Items) (name : Text)
    → all_plain items ≡ true
    → named_in name items ≡ true
    → IsName name
unfolding named_in all_plain
named_in-IsName (end e) name plain held = cc
named_in-IsName (item other_name nd rest) name plain held =
    elim (Bool-cases (text_eq other_name name)) [
      | inl e ↦
          subst IsName ((text_eq_iff other_name name).0 e)
            (valid_entry_name-IsName other_name (ground arith))
      | inr n ↦ named_in-IsName rest name (ground arith) (rw n at held)
    ]

-- The first entry of a directory, with what holds of the files before and after it.
module _ (limit : ℤ) (name : Text) (nd : Node) (rest : Items) (fs : Files) (path : Text)
    (written : ℕ) (ready : ReadyItems limit (item name nd rest) fs path written) where
  abbrev pub here : Text
  here = path ++ (slash ∷ name)

  pub plain_parts : (valid_entry_name name ≡ true) × (is_plain nd ≡ true) × (all_plain rest ≡ true)
  unfolding all_plain
  plain_parts = ground (arith, ready.0)

  distinct_parts :
      (named_in name rest ≡ false) × (is_distinct nd ≡ true) × (all_distinct rest ≡ true)
  unfolding all_distinct
  distinct_parts = ground (arith, ready.1)

  name-IsName : IsName name
  name-IsName = valid_entry_name-IsName name plain_parts.0

  pub join-here : join path name ≡ here
  join-here = join-name path name ready.4 name-IsName

  first-Free : Free here fs
  unfolding named_in
  first-Free = ready.5 name (rw (text_eq_refl name) refl)

  pub first-Ready : Ready limit nd fs here written
  unfolding size
  first-Ready = (
    plain_parts.1,
    distinct_parts.1,
    Room-first limit written (size nd) (size_items rest) ready.2,
    ready.3,
    IsBelow-name path name ready.4 name-IsName,
    first-Free,
  )

  module _ (r : Outcome) (first : Stands nd fs here written r) where
    -- The other names are as free as they were.
    rest-Free : FreeNames rest path r.files
    unfolding named_in
    rest-Free m held t tail =
        ap (λ q. lookup q (r.files).entries) spelled
        ∙ first.beside (path ++ (slash ∷ m ++ t))
            (strip-prefix path (slash ∷ name) (slash ∷ m ++ t) ∙ apart)
        ∙ ap (λ q. lookup q fs.entries) (sym spelled)
        ∙ ready.5 m (rw held (ground arith)) t tail
      where
        spelled : (path ++ (slash ∷ m)) ++ t ≡ path ++ (slash ∷ m ++ t)
        spelled = append_assoc path (slash ∷ m) t

        different : text_eq name m ≡ false
        different = elim (Bool-cases (text_eq name m)) [
          | inr n ↦ n
          | inl e ↦ absurd (
              cc (
                sym held
                ∙ ap (λ k. named_in k rest) (sym ((text_eq_iff name m).0 e))
                ∙ distinct_parts.0))
        ]

        apart : strip (slash ∷ name) (slash ∷ m ++ t) ≡ none
        apart =
            below_apart name m t name-IsName (named_in-IsName rest m plain_parts.2 held) different
              tail

    pub rest-Ready : ReadyItems limit rest r.files path r.written
    unfolding size
    rest-Ready = (
      plain_parts.2,
      distinct_parts.2,
      Room-rest limit written (size nd) (size_items rest) r.written first.counted ready.2,
      first.willing,
      ready.4,
      rest-Free,
    )

    module _ (r' : Outcome) (after : Filled rest r.files path r.written r') where
      item-below :
          (t : Text)
          → IsTail t
          → (o : Option Text) → strip (slash ∷ name) t ≡ o
          → lookup (path ++ t) (r'.files).entries
            ≡ or_else
                (first_of o (λ s. content_at nd s) (items_at rest t))
                (lookup (path ++ t) fs.entries)
      item-below t tail none h =
          after.below t tail
          ∙ ap (or_else (items_at rest t))
              (first.beside (path ++ t) (strip-prefix path (slash ∷ name) t ∙ h))
      item-below t tail (some s) h =
          after.below t tail
          ∙ ap (λ o. or_else o (lookup (path ++ t) (r.files).entries))
              (ap (items_at rest) from_here
                ∙ items_at-absent rest name s plain_parts.2 name-IsName distinct_parts.0 tail')
          ∙ ap (λ q. lookup q (r.files).entries)
              (ap (◌++◌ path) from_here ∙ sym (append_assoc path (slash ∷ name) s))
          ∙ first.below s tail'
          ∙ sym (or_else-none (content_at nd s))
          ∙ ap (or_else (content_at nd s)) (
              sym (
                ap (λ q. lookup q fs.entries)
                  (ap (◌++◌ path) from_here ∙ sym (append_assoc path (slash ∷ name) s))
                ∙ first-Free s tail'))
        where
          from_here : t ≡ slash ∷ name ++ s
          from_here = strip-some (slash ∷ name) t s h

          tail' : IsTail s
          tail' = strip-IsTail (slash ∷ name) t s h

      pub item-Filled : Filled (item name nd rest) fs path written r'
      unfolding size items_at
      item-Filled = record {
        quiet = after.quiet;
        counted = omega (arith, after.counted, first.counted);
        willing = after.willing;
        below = λ t tail. item-below t tail (strip (slash ∷ name) t) refl;
        beside = λ q apart.
            after.beside q apart ∙ first.beside q (strip-shorter path (slash ∷ name) q refl apart);
      }
