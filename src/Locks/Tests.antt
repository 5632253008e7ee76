-- ===== src/Locks/Tests.antt =====
-- client/output.go: two downloads that replace the same output, and the theorems at them.
use ipfs_mobile.Prelude.{ℕ, ◌≡◌, refl, none, List, [], ◌∷◌}
use ipfs_mobile.Prelude.Text.{Text, codes, text_eq}
use ipfs_mobile.Prelude.Dict.{lookup, insert, erase}
use ipfs_mobile.FilePath.{clean}
use ipfs_mobile.Lifecycle.{remove}
use ipfs_mobile.Locks.{Action, call, act, enter, unlock, finish, run, step, claim, drop, initial}
use ipfs_mobile.Locks.Exclusion.{inside-exclusive, unused-absent}

-- Two spellings of one path.
abbrev path : Text
path = codes "/data/out"

abbrev same_path : Text
same_path = codes "/data/./x/../out"

-- The first call, in slot 1, holds the lock; the second one waits.
abbrev contended : List Action
contended = call path ∷ act 0 enter ∷ call same_path ∷ act 0 enter ∷ []

abbrev released : List Action
released = call path ∷ act 0 enter ∷ act 0 unlock ∷ act 0 finish ∷ []

inside-exclusive_example : ◌≡◌ {A = ℕ} 1 1
unfolding run step claim lookup insert clean text_eq
inside-exclusive_example = inside-exclusive contended path 0 0 1 1 refl refl

unused-absent_example :
    (lookup path (run initial released).locks.held ≡ none)
    × (lookup path (run initial released).locks.waiting ≡ none)
unfolding run step claim drop remove lookup insert erase clean text_eq
unused-absent_example = unused-absent released path refl
