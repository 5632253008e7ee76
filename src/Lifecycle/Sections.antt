-- ===== src/Lifecycle/Sections.antt =====
-- client/client.go: what the two sections of `acquire`, and `release`, do on every branch.
use ipfs_mobile.Prelude.{
  ℕ, ◌+◌, ◌-◌, ◌≡◌, refl, Bool, true, false, ◌||◌, ◌⊎◌, inl, inr, ◌<◌, Option, none, some, arith,
}
use ipfs_mobile.Prelude.Tests.{if◌then◌else◌, ltb}
use ipfs_mobile.Errors.{Result, ok, err}
use ipfs_mobile.Lifecycle.{
  Client, Entry, refused, reuse, await, claim, enter, settle, release, stop_timer, enter_with,
  take_node, close_idle, close,
}

-- What the section leaves alone.
pub record Frame (c d : Client) : Type 0 where
  pub same_node : d.node ≡ c.node
  pub same_closed : d.closed ≡ c.closed
  pub same_retired : d.retired ≡ c.retired
  pub same_idle : d.idle ≡ c.idle

pub record Counted (k : ℕ) (c d : Client) : Type 0 where
  pub frame : Frame c d
  pub raised : d.inflight ≡ c.inflight + k
  pub same_starting : d.starting ≡ c.starting
  pub no_timer : d.timer ≡ none

-- A closed client is left as it is; a running node is used, one being built is waited for, and else
-- the building is claimed. In the last three cases the idle timer is stopped.
abbrev pub Entered : Client → Client × Entry → Type 0
Entered c (d, refused) = (c.closed ≡ true) × (d ≡ c)
Entered c (d, reuse n) = (c.closed ≡ false) × (c.node ≡ some n) × Counted 1 c d
Entered c (d, await p) =
    (c.closed ≡ false) × (c.node ≡ none) × (c.starting ≡ some p) × Counted 0 c d
Entered c (d, claim p) =
    (c.closed ≡ false)
    × (c.node ≡ none)
    × (c.starting ≡ none)
    × (d.starting ≡ some p)
    × (d.inflight ≡ c.inflight + 1)
    × (d.timer ≡ none)
    × Frame c d
    × (p ≡ c.next_pending)

pub stop_timer-Counted : (c : Client) → Counted 0 c (stop_timer c)
unfolding stop_timer
stop_timer-Counted c = ground arith

Entered-with :
    (c d : Client) (m p : Option ℕ)
    → c.closed ≡ false
    → c.node ≡ m
    → c.starting ≡ p
    → Counted 0 c d
    → d.next_pending ≡ c.next_pending
    → Entered c (enter_with d m p)
unfolding enter_with
Entered-with c d (some n) p h j k f q = ground arith
Entered-with c d none (some p) h j k f q = ground arith
Entered-with c d none none h j k f q = ground arith

stop_timer-next_pending : (c : Client) → (stop_timer c).next_pending ≡ c.next_pending
unfolding stop_timer
stop_timer-next_pending c = ground arith

Entered-if :
    (c : Client) (b : Bool)
    → c.closed ≡ b
    → Entered c (if b then (c, refused) else enter_with (stop_timer c) c.node c.starting)
Entered-if c true h = (h, refl)
Entered-if c false h =
    Entered-with c (stop_timer c) c.node c.starting h refl refl (stop_timer-Counted c)
      (stop_timer-next_pending c)

-- The first section of `acquire` does what `Entered` says, whatever the client.
pub enter-Entered : (c : Client) → Entered c (enter c)
unfolding enter
enter-Entered c = Entered-if c c.closed refl

-- What `release` leaves alone, and the timer: it is armed only where no download is left.
pub record Released (c d : Client) : Type 0 where
  pub frame : Frame c d
  pub lowered : d.inflight ≡ c.inflight - 1
  pub same_starting : d.starting ≡ c.starting

pub release-Released : (c : Client) → Released c (release c)
unfolding release stop_timer
release-Released c = ground arith

-- The second section of `acquire`: `starting` is cleared, and the node recorded unless the client
-- is closed.
abbrev pub Settled : Client → Result ℕ → Client × Bool → Type 0
Settled c (ok n) (d, b) =
    (b ≡ c.closed)
    × (d.starting ≡ none)
    × (d.inflight ≡ c.inflight)
    × (d.closed ≡ c.closed)
    × (d.timer ≡ c.timer)
    × (c.closed ≡ true → d.node ≡ c.node)
    × (c.closed ≡ false → d.node ≡ some n)
Settled c (err e) (d, b) =
    (b ≡ c.closed)
    × (d.starting ≡ none)
    × (d.inflight ≡ c.inflight)
    × (d.closed ≡ c.closed)
    × (d.timer ≡ c.timer)
    × (d.node ≡ c.node)

pub settle-Settled : (c : Client) (r : Result ℕ) → Settled c r (settle c r)
unfolding settle
settle-Settled c (ok n) = ground arith
settle-Settled c (err e) = ground arith

-- `closeIdle` takes the node only where no download is counted and the client is open; it then
-- forgets the node and the timer, and nothing else changes. Else it changes nothing.
abbrev pub Swept : Client → Client × Option ℕ → Type 0
Swept c (d, none) = (d ≡ c) × ((c.closed ≡ true) ⊎ ((0 < c.inflight) ⊎ (c.node ≡ none)))
Swept c (d, some n) =
    (c.closed ≡ false)
    × (c.inflight ≡ 0)
    × (c.node ≡ some n)
    × (d ≡ record c { node = none; timer = none })

Swept-with :
    (c : Client) (b : Bool)
    → (c.closed || ltb 0 c.inflight) ≡ b
    → (m : Option ℕ) → c.node ≡ m
    → Swept c (if b then (c, none) else take_node c m)
unfolding take_node
Swept-with c true h m k = ground arith
Swept-with c false h none k = ground arith
Swept-with c false h (some n) k = ground arith

pub close_idle-Swept : (c : Client) → Swept c (close_idle c)
unfolding close_idle
close_idle-Swept c = Swept-with c (c.closed || ltb 0 c.inflight) refl c.node refl

-- `Close` takes the node out of an open client and retires it; a second call changes nothing.
abbrev pub IsShut : Client → Client × Option ℕ → Type 0
IsShut c (d, n) =
    ((c.closed ≡ true) × (d ≡ c) × (n ≡ none))
    ⊎ ((c.closed ≡ false)
        × (d.closed ≡ true)
        × (d.node ≡ none)
        × (n ≡ c.node)
        × (d.starting ≡ c.starting)
        × (d.inflight ≡ c.inflight)
        × (d.timer ≡ none)
        × (d.retired ≡ true))

IsShut-with :
    (c : Client) (b : Bool)
    → c.closed ≡ b
    → IsShut c (
        if b then (c, none) else (
          record (stop_timer (record c { closed = true })) { retired = true; node = none },
          c.node,
        ))
unfolding stop_timer
IsShut-with c true h = inl (h, refl, refl)
IsShut-with c false h = inr (ground arith)

pub close-IsShut : (c : Client) → IsShut c (close c)
unfolding close
close-IsShut c = IsShut-with c c.closed refl
