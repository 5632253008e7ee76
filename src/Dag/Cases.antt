-- ===== src/Dag/Cases.antt =====
-- client/node.go: a regular file, a directory and the end of its entries are written whole.
use ipfs_mobile.Prelude.{
  ℕ, ◌+◌, ◌≡◌, refl, true, Option, none, some, [], ◌∷◌, ◌++◌, arith, ap, sym, ◌∙◌, subst,
  append_assoc,
}
use ipfs_mobile.Prelude.Lists.{length}
use ipfs_mobile.Prelude.Text.{Text, text_eq}
use ipfs_mobile.Prelude.Dict.{lookup}
use ipfs_mobile.Prelude.Int.{ℤ}
use ipfs_mobile.Errors.{Error, size_limit_with_totals}
use ipfs_mobile.FilePath.{slash}
use ipfs_mobile.Storage.{Files, Body, Written, folder, file, put}
use ipfs_mobile.Storage.Fitting.{Room, whole, write_limited-Room}
use ipfs_mobile.Dag.{Items, regular, directory, end, item, Outcome, write_regular}
use ipfs_mobile.Dag.Shape.{ended, size}
use ipfs_mobile.Dag.Content.{content_at, items_at}
use ipfs_mobile.Staging.{strip}
use ipfs_mobile.Staging.Subtree.{IsTail}
use ipfs_mobile.Dag.Places.{Willing, Free, put_beside, put_below, Free-self}
use ipfs_mobile.Dag.Standing.{or_else, or_else-none, Stands, Filled, FreeNames}

abbrev pub outcome_of : ℤ → ℕ → Written → Outcome
outcome_of limit written w = record {
  files = w.files;
  written = written + w.count;
  failure = size_limit_with_totals w.failure (written + w.count) limit;
}

pub regular-Stands :
    (bytes : Text) (f : Option Error) (limit : ℤ) (fs : Files) (path : Text) (written : ℕ)
    → ended f ≡ true
    → Room limit written (length bytes)
    → Willing fs
    → Free path fs
    → let b : Body = record { bytes = bytes; failure = f } in
      Stands (regular b) fs path written (write_regular fs path b limit written)
unfolding size content_at size_limit_with_totals
regular-Stands bytes (some e) limit fs path written h room willing free = cc
regular-Stands bytes none limit fs path written h room willing free =
    subst (λ w. Stands (regular b) fs path written (outcome_of limit written w))
      (sym (
        write_limited-Room fs path bytes limit written (Free-self path fs free) (willing path)
          room))
      standing
  where
    b : Body
    b = record { bytes = bytes; failure = none }

    below :
        (t : Text)
        → IsTail t
        → lookup (path ++ t) (put path (file bytes) fs).entries ≡ content_at (regular b) t
    below [] tail = unfold text_eq in put_below path [] (file bytes) fs
    below (c ∷ t) tail =
        unfold text_eq in (put_below path (c ∷ t) (file bytes) fs ∙ free (c ∷ t) tail)

    standing : Stands (regular b) fs path written (outcome_of limit written (whole fs path bytes))
    standing = record {
      quiet = refl;
      counted = refl;
      willing = willing;
      below = below;
      beside = λ q apart. put_beside path q (file bytes) fs apart;
    }

pub items_at-nil : (items : Items) → items_at items [] ≡ none
unfolding items_at strip
items_at-nil (end e) = refl
items_at-nil (item name nd rest) = items_at-nil rest

pub directory-Stands :
    (limit : ℤ) (items : Items) (fs : Files) (path : Text) (written : ℕ) (r : Outcome)
    → Free path fs
    → Filled items (put path folder fs) path written r
    → Stands (directory items) fs path written r
unfolding size content_at text_eq
directory-Stands limit items fs path written r free filled = record {
  quiet = filled.quiet;
  counted = filled.counted;
  willing = filled.willing;
  below = below;
  beside = λ q apart. filled.beside q apart ∙ put_beside path q folder fs apart;
}
  where
    below :
        (t : Text)
        → IsTail t
        → lookup (path ++ t) (r.files).entries ≡ content_at (directory items) t
    below [] tail =
        filled.below [] tail
        ∙ ap (λ o. or_else o (lookup (path ++ []) (put path folder fs).entries))
            (items_at-nil items)
        ∙ put_below path [] folder fs
    below (c ∷ t) tail =
        filled.below (c ∷ t) tail
        ∙ ap (or_else (items_at items (c ∷ t)))
            (put_below path (c ∷ t) folder fs ∙ free (c ∷ t) tail)
        ∙ or_else-none (items_at items (c ∷ t))

-- The names of a new directory are free.
pub put-FreeNames :
    (items : Items) (path : Text) (fs : Files)
    → Free path fs
    → FreeNames items path (put path folder fs)
unfolding text_eq
put-FreeNames items path fs free m held t tail =
    ap (λ q. lookup q (put path folder fs).entries) (append_assoc path (slash ∷ m) t)
    ∙ put_below path (slash ∷ m ++ t) folder fs
    ∙ free (slash ∷ m ++ t) refl

pub end-Filled :
    (f : Option Error) (limit : ℤ) (path : Text) (fs : Files) (written : ℕ)
    → ended f ≡ true
    → Willing fs
    → Filled (end f) fs path written (record { files = fs; written = written; failure = f })
unfolding size items_at
end-Filled (some e) limit path fs written h willing = cc
end-Filled none limit path fs written h willing = record {
  quiet = refl;
  counted = omega arith;
  willing = willing;
  below = λ t tail. refl;
  beside = λ q apart. refl;
}
