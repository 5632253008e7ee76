-- ===== src/Locks.antt =====
-- client/output.go: `pathLocks`, one lock per output path. `lock` is its two sections under the
-- mutex, `claim` and `drop`, with the channel operations between them; a channel holds at most one
-- token, and `full` lists the channels that hold theirs.
use ipfs_mobile.Prelude.{
  ℕ, zero, suc, ◌+◌, ◌-◌, Bool, true, false, Option, none, some, List, [], ◌∷◌,
}
use ipfs_mobile.Prelude.Tests.{◌==◌, if◌then◌else◌}
use ipfs_mobile.Prelude.Lists.{get_elem?, set}
use ipfs_mobile.Prelude.Text.{Text}
use ipfs_mobile.Prelude.Dict.{Dict, lookup, insert, erase}
use ipfs_mobile.FilePath.{clean}
use ipfs_mobile.Lifecycle.{remove}
use ipfs_mobile.Lifecycle.System.{contains}
pub mod Invariant
pub mod Preserved
pub mod Exclusion
pub mod Tests

-- Channels are numbered in the order of their creation.
pub record Locks : Type 0 where
  pub held : Dict ℕ
  pub waiting : Dict ℕ
  pub next_gate : ℕ

-- A missing entry of a Go map of integers reads as 0.
abbrev pub count_of : Option ℕ → ℕ
count_of none = 0
count_of (some n) = n

abbrev pub count_up : Text → Locks → Locks
count_up key l = record l { waiting = insert key (count_of (lookup key l.waiting) + 1) l.waiting }

abbrev pub claim_gate : Text → Locks → Option ℕ → Locks × ℕ
claim_gate key l (some g) = (count_up key l, g)
claim_gate key l none = (
  count_up key (record l { held = insert key l.next_gate l.held; next_gate = l.next_gate + 1 }),
  l.next_gate,
)

-- The section of `lock`: the channel of the path, made if there is none, and one more user.
unfoldable pub claim : Text → Locks → Locks × ℕ
claim key l = claim_gate key l (lookup key l.held)

-- `release`, the function inside `lock`: one user less, and the entry goes with the last one.
unfoldable pub drop : Text → Locks → Locks
drop key l =
    let n = count_of (lookup key l.waiting) - 1 in
    if n == 0
    then record l { waiting = erase key l.waiting; held = erase key l.held }
    else record l { waiting = insert key n l.waiting }

-- A call of `lock`: at the `select`, holding the lock, on its way to `release`, or through.
pub data Phase : Type 0 where
  queued : Text → ℕ → Phase
  inside : Text → ℕ → Phase
  leaving : Text → ℕ → Phase
  gone : Phase

pub record System : Type 0 where
  pub locks : Locks
  pub full : List ℕ
  pub threads : List Phase

-- `enter` is the send on the channel, `give_up` the end of the caller's context, `unlock` the
-- receive in the function that `lock` returned, and `finish` the call of `release` after either.
pub data Event : Type 0 where
  enter give_up unlock finish : Event

pub data Action : Type 0 where
  call : Text → Action
  act : ℕ → Event → Action

abbrev pub advance : System → Phase → Event → Option (System × Phase)
advance s (queued k g) enter =
    if contains g s.full then none else some (record s { full = g ∷ s.full }, inside k g)
advance s (queued k g) give_up = some (s, leaving k g)
advance s (inside k g) unlock = some (record s { full = remove g s.full }, leaving k g)
advance s (leaving k g) finish = some (record s { locks = drop k s.locks }, gone)
advance _ _ _ = none

abbrev pub moved : System → ℕ → Option (System × Phase) → System
moved s i none = s
moved s i (some (s', p)) = record s' { threads = set s.threads i p }

abbrev pub act_at : System → ℕ → Option Phase → Event → System
act_at s i none e = s
act_at s i (some p) e = moved s i (advance s p e)

abbrev pub called : System → Text → Locks × ℕ → System
called s key (l, g) = record s { locks = l; threads = queued key g ∷ s.threads }

-- An action that is not possible changes nothing.
unfoldable pub step : System → Action → System
unfolding contains
step s (call path) = called s (clean path) (claim (clean path) s.locks)
step s (act i e) = act_at s i (get_elem? s.threads i) e

unfoldable pub run : System → List Action → System
run s [] = s
run s (a ∷ as') = run (step s a) as'

-- `outputs` at the start of the process.
abbrev pub initial : System
initial = record {
  locks = record { held = []; waiting = []; next_gate = 0 };
  full = [];
  threads = [];
}
