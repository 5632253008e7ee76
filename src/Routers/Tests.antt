-- ===== src/Routers/Tests.antt =====
-- client/routing.go: two routers, and the theorems at them.
use ipfs_mobile.Prelude.{◌+◌, ◌≡◌, ◌≤◌, refl, List, [], ◌∷◌, arith}
use ipfs_mobile.Prelude.Lists.{length, total}
use ipfs_mobile.Prelude.Text.{codes, text_eq}
use ipfs_mobile.Peers.{elem}
use ipfs_mobile.Routers.{
  Search, Action, cancel, search, finds, sends, ends, run, step, advance, record_provider, all_over,
  starting, initial,
}
use ipfs_mobile.Routers.Invariant.{times, sending_it}
use ipfs_mobile.Routers.Ending.{Closes, cancelled-Closes}
use ipfs_mobile.Routers.Delivery.{length-delivered, found-delivered}

-- Both routers are past the mutex before either has sent.
abbrev both : List Action
both =
    search 0 (finds (codes "a"))
    ∷ search 1 (finds (codes "b"))
    ∷ search 0 sends
    ∷ search 1 sends
    ∷ []

length-delivered_example : length (run (initial 2 1) both).delivered + 1 ≤ 1 + 2
length-delivered_example = length-delivered 2 1 both (omega arith)

two_for_one : (run (initial 2 1) both).delivered ≡ codes "b" ∷ codes "a" ∷ []
unfolding run step initial starting advance record_provider elem text_eq
two_for_one = refl

abbrev doubled : List Action
doubled =
    search 0 (finds (codes "a"))
    ∷ search 1 (finds (codes "a"))
    ∷ search 0 sends
    ∷ search 1 ends
    ∷ []

found-delivered_example :
    times (codes "a") (run (initial 2 0) doubled).delivered
      + total (sending_it (codes "a")) (run (initial 2 0) doubled).searchers
    ≡ 1
unfolding run step initial starting advance record_provider elem text_eq all_over
found-delivered_example = found-delivered 2 0 doubled (codes "a") refl refl

-- One router's goroutine waits with a provider, the other for its router.
abbrev waiting : Search
waiting = run (initial 2 0) (search 0 (finds (codes "a")) ∷ [])

cancelled-Closes_example : Closes (step waiting cancel)
unfolding step
cancelled-Closes_example = cancelled-Closes (step waiting cancel) refl
