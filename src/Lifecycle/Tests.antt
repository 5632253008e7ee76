-- ===== src/Lifecycle/Tests.antt =====
-- client/client.go: runs of a Client, and its theorems at them.
use ipfs_mobile.Prelude.{ℕ, ◌≡◌, ◌≤◌, ◌<◌, refl, true, none, some, List, [], ◌∷◌, ◌++◌, arith, ◌⊎◌}
use ipfs_mobile.Prelude.Int.{ℤ, pos}
use ipfs_mobile.Prelude.Lists.{length, total, get_elem?}
use ipfs_mobile.Lifecycle.{enter, settle, release, close_idle, close, stop_timer}
use ipfs_mobile.Lifecycle.System.{
  Phase, Action, proceed, start_returns, download_returns, spawn, act, fire, sweep, shut, step, run,
  initial, contains,
}
use ipfs_mobile.Lifecycle.Invariant.{uses, builds, carries}
use ipfs_mobile.Lifecycle.Safety.{inflight-exact, close_idle-used, closed-torn, waiting-promised}
use ipfs_mobile.Lifecycle.Timers.{sweep-orphans_timer}

abbrev idle_timeout : ℤ
idle_timeout = pos 60

-- The download in slot `i` enters, and is the one to build the node.
abbrev builds_node : ℕ → List Action
builds_node i = act i proceed ∷ act i (start_returns none) ∷ act i proceed ∷ act i proceed ∷ []

-- One download holds node 0, and a second one, in slot 0, is waiting.
abbrev downloading : List Action
downloading = spawn ∷ builds_node 0

abbrev ends_download : List Action
ends_download = act 0 (download_returns none) ∷ act 0 proceed ∷ []

-- A second download comes while the first one builds.
abbrev second_waits : List Action
second_waits = spawn ∷ act 0 proceed ∷ spawn ∷ act 0 proceed ∷ []

-- The download ended, its timer fired, and a further one came and went before the callback ran.
abbrev late_callback : List Action
late_callback = downloading ++ ends_download ++ fire 0 ∷ spawn ∷ act 0 proceed ∷ ends_download

-- Closed while a node was being built.
abbrev closed_early : List Action
closed_early =
    spawn
    ∷ act 0 proceed
    ∷ shut
    ∷ act 0 (start_returns none)
    ∷ act 0 proceed
    ∷ act 0 proceed
    ∷ act 0 proceed
    ∷ act 0 proceed
    ∷ []

inflight-exact_example :
    ((run (initial idle_timeout) second_waits).client.inflight
      ≡ total uses (run (initial idle_timeout) second_waits).threads)
    × (total builds (run (initial idle_timeout) second_waits).threads ≤ 1)
inflight-exact_example = inflight-exact idle_timeout second_waits

close_idle-used_example :
    ((close_idle (run (initial idle_timeout) downloading).client).0
      ≡ (run (initial idle_timeout) downloading).client)
    × ((close_idle (run (initial idle_timeout) downloading).client).1 ≡ none)
unfolding run initial step enter settle stop_timer contains
close_idle-used_example = close_idle-used idle_timeout downloading (omega arith)

closed-torn_example :
    length (run (initial idle_timeout) closed_early).torn
    ≡ (run (initial idle_timeout) closed_early).next_node
unfolding run initial step enter settle release close stop_timer contains
closed-torn_example = closed-torn idle_timeout closed_early refl refl refl

closed_early_torn : (run (initial idle_timeout) closed_early).torn ≡ 0 ∷ []
unfolding run initial step enter settle release close stop_timer contains
closed_early_torn = refl

waiting-promised_example :
    (contains 0 (run (initial idle_timeout) second_waits).announced ≡ true)
    ⊎ ((j : ℕ) × (x : Phase) × (get_elem? (run (initial idle_timeout) second_waits).threads j
          ≡ some x)
        × (0 < carries 0 x))
unfolding run initial step enter settle stop_timer contains
waiting-promised_example = waiting-promised idle_timeout second_waits 0 0 refl

sweep-orphans_timer_example :
    let s' = step (run (initial idle_timeout) late_callback) sweep in
    (s'.client.node ≡ none)
    × (s'.doomed ≡ 0 ∷ [])
    × (s'.client.timer ≡ none)
    × (contains 1 s'.client.scheduled ≡ true)
    × (stop_timer s'.client ≡ s'.client)
unfolding run initial step enter settle release stop_timer contains
sweep-orphans_timer_example =
    sweep-orphans_timer (run (initial idle_timeout) late_callback) 0 1 (omega arith) refl refl refl
      refl refl
