-- ===== src/Replacement.antt =====
-- client/output.go: `replace`, which moves what has been staged onto the output. What each call of
-- the operating system and the lock return is chosen from outside.
use ipfs_mobile.Prelude.{ℕ, Bool, true, false, Option, none, some, List, [], ◌∷◌}
use ipfs_mobile.Prelude.Text.{Text}
use ipfs_mobile.Prelude.Dict.{Dict}
use ipfs_mobile.Errors.{Error, ContextErr, context_error}
use ipfs_mobile.Storage.{Files, Entry}
use ipfs_mobile.Staging.{kept_unless, strip, remove_all, rename}
pub mod Survivors
pub mod Published
pub mod Tests

-- `ctx.Err()`; what the three renames return; what `outputs.lock` returns; and what
-- `os.RemoveAll` returns, with the entries that stay where it fails half way.
pub record Replacing : Type 0 where
  pub context : Option ContextErr
  pub first : Option Error
  pub lock : Option Error
  pub second : Option Error
  pub removal : Option Error
  pub survives : Text → Bool
  pub third : Option Error

-- What a removal that fails half way leaves.
abbrev pub surviving : Bool → Option Text → Option Text
surviving true o = none
surviving false o = o

unfoldable pub remove_some : (Text → Bool) → Text → Dict Entry → Dict Entry
remove_some survives p [] = []
remove_some survives p ((k, e) ∷ rest) =
    kept_unless (surviving (survives k) (strip p k)) (k, e) (remove_some survives p rest)

abbrev pub renamed : Text → Text → Files → Files
renamed staged output fs = record fs { entries = rename staged output fs.entries }

abbrev pub after_removal :
    Replacing → Text → Text → Files → Option Error → Option Error → Files × Option Error
after_removal r staged output fs (some e) third =
    (record fs { entries = remove_some r.survives output fs.entries }, some e)
after_removal r staged output fs none (some e) =
    (record fs { entries = remove_all output fs.entries }, some e)
after_removal r staged output fs none none =
    (renamed staged output (record fs { entries = remove_all output fs.entries }), none)

abbrev pub with_lock :
    Replacing → Text → Text → Files → Option Error → Option Error → Files × Option Error
with_lock r staged output fs (some e) second = (fs, some e)
with_lock r staged output fs none none = (renamed staged output fs, none)
with_lock r staged output fs none (some e) = after_removal r staged output fs r.removal r.third

abbrev pub alive : Replacing → Text → Text → Files → Option Error → Files × Option Error
alive r staged output fs none = (renamed staged output fs, none)
alive r staged output fs (some e) = with_lock r staged output fs r.lock r.second

abbrev pub unless_ended : Replacing → Text → Text → Files → Option ContextErr → Files × Option Error
unless_ended r staged output fs (some c) = (fs, some (context_error c))
unless_ended r staged output fs none = alive r staged output fs r.first

-- `replace`.
unfoldable pub replace : Replacing → Text → Text → Files → Files × Option Error
unfolding remove_some
replace r staged output fs = unless_ended r staged output fs r.context
