-- ===== src/Routers/Delivery.antt =====
-- client/routing.go: which providers the caller of `FindProvidersAsync` receives.
use ipfs_mobile.Prelude.{ℕ, ◌+◌, ◌≡◌, ◌≤◌, ◌<◌, refl, true, false, some, List, [], ◌∷◌, arith}
use ipfs_mobile.Prelude.Tests.{if◌then◌else◌}
use ipfs_mobile.Prelude.Lists.{get_elem?, total, length, get_elem?-le-total}
use ipfs_mobile.Prelude.Text.{Text}
use ipfs_mobile.Peers.{elem}
use ipfs_mobile.Routers.{Searcher, ranging, sending, over, Search, Action, run, initial}
use ipfs_mobile.Routers.Invariant.{times, sending_it, spent, active, Inv, run-Inv, initial-Inv}

spent-le-length : (xs : List Searcher) → total spent xs ≤ length xs
spent-le-length [] = omega arith
spent-le-length (ranging ∷ xs) = omega (arith, spent-le-length xs)
spent-le-length (over ∷ xs) = omega (arith, spent-le-length xs)
spent-le-length (sending u true ∷ xs) = omega (arith, spent-le-length xs)
spent-le-length (sending u false ∷ xs) = omega (arith, spent-le-length xs)

idle-over : (x : Searcher) → active x ≡ 0 → x ≡ over
idle-over over h = refl
idle-over ranging h = absurd (omega arith)
idle-over (sending u b) h = absurd (omega arith)

module _ (routers limit : ℕ) (history : List Action) where
  abbrev reached : Search
  reached = run (initial routers limit) history

  reached-Inv : Inv routers limit reached
  reached-Inv = run-Inv routers limit (initial routers limit) history (initial-Inv routers limit)

  -- However the routers of parallelDiscovery interleave, no provider is delivered twice, and none
  -- that no router has found.
  pub delivered_once :
      (id : Text) → times id reached.delivered ≤ (if elem id reached.seen then 1 else 0)
  delivered_once id = omega (arith, reached-Inv.once id)

  -- With a positive limit, at most one provider fewer than the limit and the routers together is
  -- delivered.
  pub length-delivered : 0 < limit → length reached.delivered + 1 ≤ limit + routers
  length-delivered positive =
      let inv = reached-Inv in
      ground (
        arith,
        inv.within,
        inv.counted,
        inv.same_limit,
        inv.same_number,
        spent-le-length reached.searchers,
      )

  -- As long as nothing has cancelled the search, every provider that a router has found is
  -- delivered or about to be sent.
  pub found-delivered :
      (id : Text)
      → reached.cancelled ≡ false
      → elem id reached.seen ≡ true
      → times id reached.delivered + total (sending_it id) reached.searchers ≡ 1
  found-delivered id going found = ground (arith, reached-Inv.once id, reached-Inv.kept id)

  -- The merged channel is closed only when no router's goroutine can send on it.
  pub closed-over :
      (i : ℕ) (x : Searcher)
      → reached.is_closed ≡ true
      → get_elem? reached.searchers i ≡ some x
      → x ≡ over
  closed-over i x shut here =
      idle-over x
        (ground (arith, reached-Inv.ended, get_elem?-le-total active reached.searchers i here))
