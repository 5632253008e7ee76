-- ===== src/Lifecycle.antt =====
-- client/client.go: the state of a Client that its mutex guards, and each section of the code that
-- holds the mutex as one function: the two of `acquire`, and those of `release`, `closeIdle` and
-- `Close`. Nodes, pending channels and timers are numbered in the order of their creation.
use ipfs_mobile.Prelude.{
  ℕ, zero, suc, ◌+◌, ◌-◌, Bool, true, false, ◌||◌, Option, none, some, List, [], ◌∷◌,
}
use ipfs_mobile.Prelude.Tests.{ltb, ◌==◌, if◌then◌else◌}
use ipfs_mobile.Prelude.Int.{ℤ, pos, ltb_ℤ}
use ipfs_mobile.Errors.{Result, ok, err, is_some}
pub mod System
pub mod Sections
pub mod Invariant
pub mod Moves
pub mod Preserved
pub mod Safety
pub mod Closing
pub mod Timers
pub mod Tests

-- `Client`, less what `New` fixes, with the runtime's share of it: `scheduled` holds the timers of
-- `time.AfterFunc` that have neither fired nor been stopped, `retired` says whether the context of
-- that name is cancelled. A Go `nil` is `none`.
pub record Client : Type 0 where
  pub idle : ℤ
  pub node : Option ℕ
  pub starting : Option ℕ
  pub inflight : ℕ
  pub timer : Option ℕ
  pub closed : Bool
  pub retired : Bool
  pub scheduled : List ℕ
  pub next_timer : ℕ
  pub next_pending : ℕ

-- What `New` returns.
unfoldable pub new : ℤ → Client
new idle = record {
  idle = idle;
  node = none;
  starting = none;
  inflight = 0;
  timer = none;
  closed = false;
  retired = false;
  scheduled = [];
  next_timer = 0;
  next_pending = 0;
}

unfoldable pub remove : ℕ → List ℕ → List ℕ
remove t [] = []
remove t (u ∷ us) = let rest = remove t us in if u == t then rest else u ∷ rest

-- `stopTimer`. `Stop` on a timer that has fired does nothing.
unfoldable pub stop_timer : Client → Client
unfolding remove
stop_timer c = elim c.timer [
  | none ↦ c
  | some t ↦ record c { scheduled = remove t c.scheduled; timer = none }
]

-- What one round of the loop of `acquire` finds under the mutex.
pub data Entry : Type 0 where
  refused : Entry
  reuse : ℕ → Entry
  await : ℕ → Entry
  claim : ℕ → Entry

enter_with : Client → Option ℕ → Option ℕ → Client × Entry
enter_with c (some n) pending = (record c { inflight = c.inflight + 1 }, reuse n)
enter_with c none (some p) = (c, await p)
enter_with c none none = (
  record c {
    starting = some c.next_pending;
    inflight = c.inflight + 1;
    next_pending = c.next_pending + 1;
  },
  claim c.next_pending,
)

-- The first section of `acquire`: refuse, take the node there is, wait for the one being built, or
-- claim the building of one.
unfoldable pub enter : Client → Client × Entry
unfolding enter_with stop_timer
enter c = if c.closed then (c, refused) else enter_with (stop_timer c) c.node c.starting

-- The second section of `acquire`: the outcome of `startNode` is recorded, unless the client has
-- been closed, which is also returned.
unfoldable pub settle : Client → Result ℕ → Client × Bool
settle c (ok n) =
    if c.closed
    then (record c { starting = none }, true)
    else (record c { starting = none; node = some n }, false)
settle c (err e) = (record c { starting = none }, c.closed)

arm_timer : Client → Client
arm_timer c = record c {
  timer = some c.next_timer;
  scheduled = c.next_timer ∷ c.scheduled;
  next_timer = c.next_timer + 1;
}

-- `release`.
unfoldable pub release : Client → Client
unfolding arm_timer stop_timer
release c =
    let c' = record c { inflight = c.inflight - 1 } in
    if ltb 0 c'.inflight || (c'.closed || (if ltb_ℤ (pos 0) c'.idle then false else true))
    then c'
    else arm_timer (stop_timer c')

take_node : Client → Option ℕ → Client × Option ℕ
take_node c none = (c, none)
take_node c (some n) = (record c { node = none; timer = none }, some n)

-- The section of `closeIdle`, with the node that it closes afterwards.
unfoldable pub close_idle : Client → Client × Option ℕ
unfolding take_node
close_idle c = if c.closed || ltb 0 c.inflight then (c, none) else take_node c c.node

-- The section of `Close`, with the node that it closes afterwards.
unfoldable pub close : Client → Client × Option ℕ
unfolding stop_timer
close c =
    if c.closed
    then (c, none)
    else (record (stop_timer (record c { closed = true })) { retired = true; node = none }, c.node)
