-- ===== src/Staging.antt =====
-- client/node.go: `claimScratch` and `sweepScratchPrefix`, with the registry `staging` of the
-- directories that this process writes into; and `os.Rename` and `os.RemoveAll` of a subtree.
use ipfs_mobile.Prelude.{
  ℕ, ◌+◌, ◌*◌, Bool, true, false, not, ◌||◌, Option, none, some, List, [], ◌∷◌, ◌++◌,
}
use ipfs_mobile.Prelude.Tests.{◌==◌, if◌then◌else◌}
use ipfs_mobile.Prelude.Text.{Text, text_eq, codes}
use ipfs_mobile.Prelude.Dict.{Dict, insert}
use ipfs_mobile.Prelude.Int.{ℤ, pos, ltb_ℤ}
use ipfs_mobile.Errors.{Error, Result, ok, err}
use ipfs_mobile.FilePath.{slash, clean, join, has_prefix}
use ipfs_mobile.Durations.{second}
use ipfs_mobile.Peers.{elem}
use ipfs_mobile.Storage.{Entry, Files, folder, put}
pub mod Subtree
pub mod Sweeping
pub mod Tests

-- What stands behind a path in a path at or below it: nothing, or a slash and more.
abbrev pub tail_of : Text → Option Text
tail_of [] = some []
tail_of (c ∷ s) = if c == slash then some (c ∷ s) else none

unfoldable pub strip : Text → Text → Option Text
strip [] k = tail_of k
strip (c ∷ p) [] = none
strip (c ∷ p) (d ∷ k) = let rest = strip p k in if c == d then rest else none

abbrev pub kept_unless {ℓ} : {A : Type ℓ} → Option Text → A → List A → List A
kept_unless (some s) x xs = xs
kept_unless none x xs = x ∷ xs

-- `os.RemoveAll` of a subtree.
unfoldable pub remove_all {ℓ} : {V : Type ℓ} → Text → Dict V → Dict V
remove_all p [] = []
remove_all p ((k, e) ∷ rest) = kept_unless (strip p k) (k, e) (remove_all p rest)

abbrev pub moved_entry {ℓ} :
    {V : Type ℓ} → Option Text → Option Text → Text → Text → V → Dict V → Dict V
moved_entry (some s) at to k e others = (to ++ s, e) ∷ others
moved_entry none at to k e others = kept_unless at (k, e) others

-- `os.Rename` of a subtree to a path, where it replaces what is there.
unfoldable pub rename {ℓ} : {V : Type ℓ} → Text → Text → Dict V → Dict V
rename from to [] = []
rename from to ((k, e) ∷ rest) =
    moved_entry (strip from k) (strip to k) to k e (rename from to rest)

-- `scratchPrefix` and `gatewayScratchPrefix`.
abbrev pub scratch_prefix : Text
scratch_prefix = codes ".ipfs-download-"

abbrev pub gateway_scratch_prefix : Text
gateway_scratch_prefix = codes ".ipfs-gateway-"

-- `scratchStaleAfter`.
abbrev pub scratch_stale_after : ℤ
scratch_stale_after = pos (3600 * second)

unfoldable pub ends_slash : Text → Bool
ends_slash [] = false
ends_slash (c ∷ []) = c == slash
ends_slash (c ∷ d ∷ s) = ends_slash (d ∷ s)

-- The path that `os.MkdirTemp` makes of a directory that is not empty and the name it has chosen.
unfoldable pub temp_path : Text → Text → Text
unfolding ends_slash
temp_path dir name = if ends_slash dir then dir ++ name else dir ++ (slash ∷ name)

-- `claimScratch`: the registry and the path, where `os.MkdirTemp` chooses a name or fails.
unfoldable pub claim_scratch : List Text → Text → Result Text → List Text × Result Text
unfolding temp_path
claim_scratch live dir (err e) = (live, err e)
claim_scratch live dir (ok name) = (temp_path dir name ∷ live, ok (temp_path dir name))

-- `staging.Delete`.
unfoldable pub unregister : Text → List Text → List Text
unregister p [] = []
unregister p (q ∷ qs) = let rest = unregister p qs in if text_eq q p then rest else q ∷ rest

-- An entry of `os.ReadDir`, with how long ago it was modified, unless `Info` fails.
pub record DirEntry : Type 0 where
  pub name : Text
  pub is_dir : Bool
  pub age : Option ℤ

abbrev pub is_fresh : Option ℤ → Bool
is_fresh none = true
is_fresh (some age) = ltb_ℤ age scratch_stale_after

-- Whether the loop of `sweepScratchPrefix` removes an entry.
unfoldable pub is_swept : Text → Text → List Text → DirEntry → Bool
unfolding elem
is_swept dir prefix live e = not (
    (not e.is_dir || not (has_prefix e.name prefix))
    || (elem (join dir e.name) live || is_fresh e.age))

-- The paths that `sweepScratchPrefix` gives to `os.RemoveAll`; the listing fails with no entries.
unfoldable pub sweep : Text → Text → List Text → List DirEntry → List Text
unfolding is_swept
sweep dir prefix live [] = []
sweep dir prefix live (e ∷ rest) =
    let others = sweep dir prefix live rest in
    if is_swept dir prefix live e then join dir e.name ∷ others else others
