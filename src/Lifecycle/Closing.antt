-- ===== src/Lifecycle/Closing.antt =====
-- client/client.go: what `Close` does to the downloads that run, and that it is final.
use ipfs_mobile.Prelude.{
  ℕ, ◌+◌, ◌-◌, ◌≡◌, ◌≤◌, refl, Bool, true, false, Option, none, some, List, [], ◌∷◌, arith, inl,
  inr, ◌∙◌,
}
use ipfs_mobile.Prelude.Tests.{ltb, if◌then◌else◌}
use ipfs_mobile.Prelude.Lists.{total, set, get_elem?, total-set}
use ipfs_mobile.Errors.{Result, ok, err, closed}
use ipfs_mobile.Lifecycle.{
  Client, Entry, refused, reuse, await, claim, enter, settle, release, close_idle, close,
}
use ipfs_mobile.Lifecycle.Sections.{
  Entered, enter-Entered, Settled, settle-Settled, release-Released, Swept, close_idle-Swept,
  IsShut, close-IsShut,
}
use ipfs_mobile.Lifecycle.System.{
  System, Phase, Event, Action, wanting, waiting, building, built, settled, discarding, holding,
  leaving, finished, proceed, start_returns, context_ends, download_returns, spawn, act, fire,
  sweep, shut, tear, contains, advance, step, moved, act_at, fired, taken, torn_down, entered,
  outcome, run,
}

-- Whether a goroutine has been given a node, or is about to be.
abbrev pub granted : Phase → ℕ
granted (holding n) = 1
granted (settled p (ok n) false) = 1
granted _ = 0

-- `t` follows `s`, both closed, and no further goroutine has been given a node.
abbrev pub Retired : System → System → Type 0
Retired s t = (t.client.closed ≡ true) × (total granted t.threads ≤ total granted s.threads)

module _ (s : System) (cl : s.client.closed ≡ true) (i : ℕ) where
  plain-Retired :
      (x v : Phase) (t : System)
      → get_elem? s.threads i ≡ some x
      → granted v ≤ granted x
      → t.client.closed ≡ true
      → Retired s (record t { threads = set s.threads i v })
  plain-Retired x v t at le c = (c, omega (arith, total-set granted s.threads i v at))

  entered-Retired :
      (r : Client × Entry)
      → get_elem? s.threads i ≡ some wanting
      → Entered s.client r
      → Retired s (record (entered s r).0 { threads = set s.threads i (entered s r).1 })
  entered-Retired (c, refused) at (h, e) =
      plain-Retired wanting (finished (some closed)) (record s { client = c }) at (omega arith)
        (rw e cl)
  entered-Retired (c, reuse n) at h = cc (h.0)
  entered-Retired (c, await p) at h = cc (h.0)
  entered-Retired (c, claim p) at h = cc (h.0)

  settled-Retired :
      (p : ℕ) (r : Result ℕ) (m : Client × Bool)
      → get_elem? s.threads i ≡ some (built p r)
      → Settled s.client r m
      → Retired s (record s { client = m.0; threads = set s.threads i (settled p r m.1) })
  settled-Retired p (ok n) (c, false) at h = cc (h.0)
  settled-Retired p (ok n) (c, true) at h =
      plain-Retired (built p (ok n)) (settled p (ok n) true) (record s { client = c }) at
        (omega arith) (h.3 ∙ cl)
  settled-Retired p (err e) (c, b) at h =
      plain-Retired (built p (err e)) (settled p (err e) b) (record s { client = c }) at
        (omega arith) (h.3 ∙ cl)

  outcome-granted :
      (p : ℕ) (r : Result ℕ) (b : Bool) → granted (outcome r b) ≤ granted (settled p r b)
  outcome-granted p (ok n) true = omega arith
  outcome-granted p (ok n) false = omega arith
  outcome-granted p (err e) b = omega arith

  wake-Retired :
      (p : ℕ) (b : Bool)
      → get_elem? s.threads i ≡ some (waiting p)
      → Retired s (moved s i (if b then some (s, wanting) else none))
  wake-Retired p true at = plain-Retired (waiting p) wanting s at (omega arith) cl
  wake-Retired p false at = (cl, omega arith)

  advance-Retired :
      (x : Phase) (e : Event)
      → get_elem? s.threads i ≡ some x
      → Retired s (moved s i (advance s x e))
  unfolding advance
  advance-Retired wanting proceed at = entered-Retired (enter s.client) at (enter-Entered s.client)
  advance-Retired (waiting p) proceed at = wake-Retired p (contains p s.announced) at
  advance-Retired (waiting p) (context_ends c) at =
      plain-Retired (waiting p) _ s at (omega arith) cl
  advance-Retired (building p) (start_returns none) at =
      plain-Retired (building p) (built p (ok s.next_node))
        (record s { next_node = s.next_node + 1 }) at (omega arith) cl
  advance-Retired (building p) (start_returns (some e)) at =
      plain-Retired (building p) (built p (err e)) s at (omega arith) cl
  advance-Retired (built p r) proceed at =
      settled-Retired p r (settle s.client r) at (settle-Settled s.client r)
  advance-Retired (settled p r b) proceed at =
      plain-Retired (settled p r b) (outcome r b) (record s { announced = p ∷ s.announced }) at
        (outcome-granted p r b) cl
  advance-Retired (discarding n) proceed at =
      plain-Retired (discarding n) (leaving (some closed)) (record s { torn = n ∷ s.torn }) at
        (omega arith) cl
  advance-Retired (holding n) (download_returns e) at =
      plain-Retired (holding n) (leaving e) s at (omega arith) cl
  advance-Retired (leaving e) proceed at =
      plain-Retired (leaving e) (finished e) (record s { client = release s.client }) at
        (omega arith) ((release-Released s.client).frame.same_closed ∙ cl)
  advance-Retired _ _ at = (cl, omega arith)

  act-Retired :
      (e : Event) (o : Option Phase) → get_elem? s.threads i ≡ o → Retired s (act_at s i o e)
  act-Retired e none at = (cl, omega arith)
  act-Retired e (some x) at = advance-Retired x e at

module _ (s : System) (cl : s.client.closed ≡ true) where
  fired-Retired : (t : Option ℕ) → Retired s (fired s t)
  fired-Retired none = (cl, omega arith)
  fired-Retired (some t) = (cl, omega arith)

  sweep-Retired :
      (k : ℕ) (r : Client × Option ℕ)
      → Swept s.client r
      → Retired s (taken (record s { sweeps = k }) r)
  sweep-Retired k (d, none) (same, why) = (rw same cl, omega arith)
  sweep-Retired k (d, some n) h = cc (h.0)

  sweep_if-Retired :
      (b : Bool)
      → Retired s
          (if b then taken (record s { sweeps = s.sweeps - 1 }) (close_idle s.client) else s)
  sweep_if-Retired true =
      sweep-Retired (s.sweeps - 1) (close_idle s.client) (close_idle-Swept s.client)
  sweep_if-Retired false = (cl, omega arith)

  shut-Retired : (r : Client × Option ℕ) → IsShut s.client r → Retired s (taken s r)
  shut-Retired (d, o) (inl (h, e, n)) = (rw e cl, omega arith)
  shut-Retired (d, o) (inr h) = cc (h.0)

  tear-Retired : (ds : List ℕ) → Retired s (torn_down s ds)
  tear-Retired [] = (cl, omega arith)
  tear-Retired (n ∷ ds) = (cl, omega arith)

step-Retired : (s : System) (a : Action) → s.client.closed ≡ true → Retired s (step s a)
unfolding step
step-Retired s spawn cl = (cl, omega arith)
step-Retired s (act i e) cl = act-Retired s cl i e (get_elem? s.threads i) refl
step-Retired s (fire i) cl = fired-Retired s cl (get_elem? s.client.scheduled i)
step-Retired s sweep cl = sweep_if-Retired s cl (ltb 0 s.sweeps)
step-Retired s shut cl = shut-Retired s cl (close s.client) (close-IsShut s.client)
step-Retired s tear cl = tear-Retired s cl s.doomed

-- From any state with a closed client, whatever is done next leaves it closed, and the number of
-- downloads that have a node or are about to be handed one does not grow.
pub run-Retired : (s : System) (as' : List Action) → s.client.closed ≡ true → Retired s (run s as')
unfolding run
run-Retired s [] cl = (cl, omega arith)
run-Retired s (a ∷ as') cl =
    let (c, le) = step-Retired s a cl in
    let (c', le') = run-Retired (step s a) as' c in (c', omega arith)
