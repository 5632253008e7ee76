-- ===== src/Replacement/Published.antt =====
-- client/output.go: what `replace` publishes, and what it leaves alone.
use ipfs_mobile.Prelude.{◌≡◌, refl, Option, none, some, ◌++◌, ◌∙◌}
use ipfs_mobile.Prelude.Text.{Text}
use ipfs_mobile.Prelude.Dict.{lookup}
use ipfs_mobile.Errors.{Error, ContextErr}
use ipfs_mobile.Storage.{Files}
use ipfs_mobile.Staging.{strip, remove_all}
use ipfs_mobile.Staging.Subtree.{IsTail, remove_all_other, rename_moved, rename_other}
use ipfs_mobile.Replacement.Survivors.{remove_some_other}
use ipfs_mobile.Replacement.{Replacing, after_removal, with_lock, alive, unless_ended, replace}

module _ (r : Replacing) (staged output : Text) (fs : Files) where
  -- Where replace reports success and neither of the staged path and the output is at or below the
  -- other, the context had not ended when it began, and what stood at and below the staged path
  -- stands at and below the output.
  pub replace-published :
      ((s : Text) → IsTail s → strip output (staged ++ s) ≡ none)
      → (replace r staged output fs).1 ≡ none
      → (r.context ≡ none)
        × ((s : Text)
            → IsTail s
            → lookup (output ++ s) ((replace r staged output fs).0).entries
              ≡ lookup (staged ++ s) fs.entries)
  unfolding replace
  replace-published apart done = ended r.context done
    where
      Moved : Files × Option Error → Type 0
      Moved (fs', e) =
          e ≡ none
          → (s : Text) → IsTail s
          → lookup (output ++ s) fs'.entries ≡ lookup (staged ++ s) fs.entries

      removed : (o p : Option Error) → Moved (after_removal r staged output fs o p)
      removed (some e) p h s tail = cc
      removed none (some e) h s tail = cc
      removed none none h s tail =
          rename_moved staged output s (remove_all output fs.entries) tail
          ∙ remove_all_other output (staged ++ s) fs.entries (apart s tail)

      locked : (o p : Option Error) → Moved (with_lock r staged output fs o p)
      locked (some e) p h s tail = cc
      locked none none h s tail = rename_moved staged output s fs.entries tail
      locked none (some e) h s tail = removed r.removal r.third h s tail

      started : (o : Option Error) → Moved (alive r staged output fs o)
      started none h s tail = rename_moved staged output s fs.entries tail
      started (some e) h s tail = locked r.lock r.second h s tail

      ended :
          (o : Option ContextErr)
          → (unless_ended r staged output fs o).1 ≡ none
          → (o ≡ none)
            × ((s : Text)
                → IsTail s
                → lookup (output ++ s) ((unless_ended r staged output fs o).0).entries
                  ≡ lookup (staged ++ s) fs.entries)
      ended none h = (refl, started r.first h)
      ended (some c) h = cc

  -- Whatever fails on its way, replace leaves every path alone that is neither at or below the
  -- staged path nor at or below the output.
  pub replace_other :
      (q : Text)
      → strip staged q ≡ none
      → strip output q ≡ none
      → lookup q ((replace r staged output fs).0).entries ≡ lookup q fs.entries
  unfolding replace
  replace_other q h g = ended r.context
    where
      removed :
          (o p : Option Error)
          → lookup q ((after_removal r staged output fs o p).0).entries ≡ lookup q fs.entries
      removed (some e) p = remove_some_other r.survives output q fs.entries g
      removed none (some e) = remove_all_other output q fs.entries g
      removed none none =
          rename_other staged output q (remove_all output fs.entries) h g
          ∙ remove_all_other output q fs.entries g

      locked :
          (o p : Option Error)
          → lookup q ((with_lock r staged output fs o p).0).entries ≡ lookup q fs.entries
      locked (some e) p = refl
      locked none none = rename_other staged output q fs.entries h g
      locked none (some e) = removed r.removal r.third

      started :
          (o : Option Error)
          → lookup q ((alive r staged output fs o).0).entries ≡ lookup q fs.entries
      started none = rename_other staged output q fs.entries h g
      started (some e) = locked r.lock r.second

      ended :
          (o : Option ContextErr)
          → lookup q ((unless_ended r staged output fs o).0).entries ≡ lookup q fs.entries
      ended none = started r.first
      ended (some c) = refl
