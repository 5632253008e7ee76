-- ===== src/Lifecycle/System.antt =====
-- client/client.go: any number of downloads (the goroutine of `getPrimary`), the idle timer's
-- callback and calls of `Close`, interleaved between the sections that hold the mutex. What
-- `startNode` and `node.download` return is chosen by the event that ends them.
use ipfs_mobile.Prelude.{ℕ, ◌+◌, ◌-◌, Bool, true, false, ◌||◌, Option, none, some, List, [], ◌∷◌}
use ipfs_mobile.Prelude.Tests.{ltb, ◌==◌, if◌then◌else◌}
use ipfs_mobile.Prelude.Lists.{get_elem?, set}
use ipfs_mobile.Prelude.Int.{ℤ}
use ipfs_mobile.Errors.{Error, Result, ok, err, closed, ContextErr, context_error}
use ipfs_mobile.Lifecycle.{
  Client, Entry, refused, reuse, await, claim, new, enter, settle, release, close_idle, close,
  remove,
}

-- Where the goroutine of a download stands. `wanting` is the top of the loop of `acquire`;
-- `building` is in `startNode`, `built` between its return and the second section, `settled` before
-- `close(pending)`, `discarding` before the `node.close()` that a closed client asks for; `holding`
-- is in `node.download`, `leaving` before the call of `release`. `none` is a nil error.
pub data Phase : Type 0 where
  wanting : Phase
  waiting : ℕ → Phase
  building : ℕ → Phase
  built : ℕ → Result ℕ → Phase
  settled : ℕ → Result ℕ → Bool → Phase
  discarding : ℕ → Phase
  holding : ℕ → Phase
  leaving : Option Error → Phase
  finished : Option Error → Phase

-- `announced` holds the pending channels that are closed; `doomed` the nodes that `closeIdle` or
-- `Close` has taken out and is about to close; `torn` those closed; `sweeps` counts the callbacks
-- of timers that have fired and have not run. `redials` are the nodes on which `redial` was called,
-- the latest first.
pub record System : Type 0 where
  pub client : Client
  pub threads : List Phase
  pub announced : List ℕ
  pub next_node : ℕ
  pub doomed : List ℕ
  pub torn : List ℕ
  pub sweeps : ℕ
  pub redials : List ℕ

-- What a goroutine does next: go on with no choice of the environment, return from `startNode`
-- (with an error, or with a node), see its context end, or return from `node.download`.
pub data Event : Type 0 where
  proceed : Event
  start_returns : Option Error → Event
  context_ends : ContextErr → Event
  download_returns : Option Error → Event

pub data Action : Type 0 where
  spawn : Action
  act : ℕ → Event → Action
  fire : ℕ → Action
  sweep : Action
  shut : Action
  tear : Action

unfoldable pub contains : ℕ → List ℕ → Bool
contains n [] = false
contains n (m ∷ ms) = (m == n) || contains n ms

abbrev pub entered : System → Client × Entry → System × Phase
entered s (c, refused) = (record s { client = c }, finished (some closed))
entered s (c, reuse n) = (record s { client = c; redials = n ∷ s.redials }, holding n)
entered s (c, await p) = (record s { client = c }, waiting p)
entered s (c, claim p) = (record s { client = c }, building p)

-- After `close(pending)`.
abbrev pub outcome : Result ℕ → Bool → Phase
outcome (err e) is_closed = leaving (some e)
outcome (ok n) true = discarding n
outcome (ok n) false = holding n

-- One step of a goroutine; `none` where it cannot take the event.
unfoldable pub advance : System → Phase → Event → Option (System × Phase)
unfolding contains context_error
advance s wanting proceed = some (entered s (enter s.client))
advance s (waiting p) proceed = if contains p s.announced then some (s, wanting) else none
advance s (waiting p) (context_ends c) = some (s, finished (some (context_error c)))
advance s (building p) (start_returns none) =
    some (record s { next_node = s.next_node + 1 }, built p (ok s.next_node))
advance s (building p) (start_returns (some e)) = some (s, built p (err e))
advance s (built p r) proceed =
    let c = settle s.client r in some (record s { client = c.0 }, settled p r c.1)
advance s (settled p r b) proceed = some (record s { announced = p ∷ s.announced }, outcome r b)
advance s (discarding n) proceed = some (record s { torn = n ∷ s.torn }, leaving (some closed))
advance s (holding n) (download_returns e) = some (s, leaving e)
advance s (leaving e) proceed = some (record s { client = release s.client }, finished e)
advance _ _ _ = none

abbrev pub doom : Option ℕ → List ℕ → List ℕ
doom none ds = ds
doom (some n) ds = n ∷ ds

abbrev pub moved : System → ℕ → Option (System × Phase) → System
moved s i none = s
moved s i (some (s', p)) = record s' { threads = set s.threads i p }

abbrev pub act_at : System → ℕ → Option Phase → Event → System
act_at s i none e = s
act_at s i (some p) e = moved s i (advance s p e)

abbrev pub fired : System → Option ℕ → System
fired s none = s
fired s (some t) = record s {
  client = record (s.client) { scheduled = remove t (s.client.scheduled) };
  sweeps = s.sweeps + 1;
}

abbrev pub taken : System → Client × Option ℕ → System
taken s (c, n) = record s { client = c; doomed = doom n s.doomed }

abbrev pub torn_down : System → List ℕ → System
torn_down s [] = s
torn_down s (n ∷ ds) = record s { doomed = ds; torn = n ∷ s.torn }

-- One step of the whole. An action that is not possible changes nothing.
unfoldable pub step : System → Action → System
unfolding advance
step s spawn = record s { threads = wanting ∷ s.threads }
step s (act i e) = act_at s i (get_elem? s.threads i) e
step s (fire i) = fired s (get_elem? s.client.scheduled i)
step s sweep =
    if ltb 0 s.sweeps then taken (record s { sweeps = s.sweeps - 1 }) (close_idle s.client) else s
step s shut = taken s (close s.client)
step s tear = torn_down s s.doomed

unfoldable pub run : System → List Action → System
run s [] = s
run s (a ∷ as') = run (step s a) as'

-- A fresh client, before its first download.
unfoldable pub initial : ℤ → System
unfolding new
initial idle = record {
  client = new idle;
  threads = [];
  announced = [];
  next_node = 0;
  doomed = [];
  torn = [];
  sweeps = 0;
  redials = [];
}
