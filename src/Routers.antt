-- ===== src/Routers.antt =====
-- client/routing.go: `FindProvidersAsync` of `parallelDiscovery`, one goroutine for each router, and
-- the one that waits for them. What a router finds, and when the caller gives up, is chosen by the
-- event.
use ipfs_mobile.Prelude.{
  ℕ, zero, suc, ◌+◌, Bool, true, false, not, ◌&&◌, ◌||◌, Option, none, some, List, [], ◌∷◌,
}
use ipfs_mobile.Prelude.Tests.{leb, ltb, ◌==◌, if◌then◌else◌}
use ipfs_mobile.Prelude.Lists.{get_elem?, set, length}
use ipfs_mobile.Prelude.Text.{Text}
use ipfs_mobile.Peers.{elem}
pub mod Invariant
pub mod Delivery
pub mod Ending
pub mod Delegated
pub mod Tests

-- Where the goroutine of one router stands: in `range`, in the `select` with a provider and what
-- `satisfied` was, or through.
pub data Searcher : Type 0 where
  ranging : Searcher
  sending : Text → Bool → Searcher
  over : Searcher

-- `merged` is unbuffered: `delivered` is what the caller has received, the latest first. A limit of
-- 0 stands for one that is not positive.
pub record Search : Type 0 where
  pub limit : ℕ
  pub seen : List Text
  pub delivered : List Text
  pub cancelled : Bool
  pub is_closed : Bool
  pub searchers : List Searcher

-- The next provider of a router, or the end of its channel; the two cases of the `select`.
pub data Event : Type 0 where
  finds : Text → Event
  ends : Event
  sends : Event
  gives_up : Event

pub data Action : Type 0 where
  search : ℕ → Event → Action
  cancel : Action
  finish : Action

-- The section under the mutex, with the new `seen` and the goroutine's next place.
unfoldable pub record_provider : Search → Text → Search × Searcher
unfolding elem
record_provider s id = if elem id s.seen then (s, ranging) else (
  record s { seen = id ∷ s.seen },
  sending id (ltb 0 s.limit && leb s.limit (length s.seen + 1)),
)

abbrev pub sent : Search → Text → Bool → Search × Searcher
sent s id satisfied = (
  record s { delivered = id ∷ s.delivered; cancelled = s.cancelled || satisfied },
  if satisfied then over else ranging,
)

-- One step of one goroutine; `none` where it cannot take the event.
unfoldable pub advance : Search → Searcher → Event → Option (Search × Searcher)
unfolding record_provider
advance s ranging (finds id) = some (record_provider s id)
advance s ranging ends = some (s, over)
advance s (sending id satisfied) sends = some (sent s id satisfied)
advance s (sending id satisfied) gives_up = if s.cancelled then some (s, over) else none
advance _ _ _ = none

abbrev pub is_over : Searcher → Bool
is_over over = true
is_over _ = false

-- What `wait.Wait()` waits for.
unfoldable pub all_over : List Searcher → Bool
all_over [] = true
all_over (x ∷ xs) = is_over x && all_over xs

abbrev pub moved : Search → ℕ → Option (Search × Searcher) → Search
moved s i none = s
moved s i (some (s', x)) = record s' { searchers = set s.searchers i x }

abbrev pub act_at : Search → ℕ → Option Searcher → Event → Search
act_at s i none e = s
act_at s i (some x) e = moved s i (advance s x e)

-- One step of the whole; `cancel` is the caller's. An action that is not possible changes nothing.
unfoldable pub step : Search → Action → Search
unfolding advance all_over
step s (search i e) = act_at s i (get_elem? s.searchers i) e
step s cancel = record s { cancelled = true }
step s finish = if all_over s.searchers then record s { is_closed = true; cancelled = true } else s

unfoldable pub run : Search → List Action → Search
run s [] = s
run s (a ∷ as') = run (step s a) as'

unfoldable pub starting : ℕ → List Searcher
starting zero = []
starting (suc n) = ranging ∷ starting n

-- `FindProvidersAsync` of so many routers.
unfoldable pub initial : ℕ → ℕ → Search
unfolding starting
initial routers limit = record {
  limit = limit;
  seen = [];
  delivered = [];
  cancelled = false;
  is_closed = false;
  searchers = starting routers;
}
