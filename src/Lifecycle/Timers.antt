-- ===== src/Lifecycle/Timers.antt =====
-- client/client.go: the idle timer. `release` arms it and the next download stops it; `closeIdle`
-- runs some time after it has fired.
use ipfs_mobile.Prelude.{ℕ, ◌-◌, ◌≡◌, ◌<◌, true, false, none, some, ◌∷◌, arith, ◌⊎◌}
use ipfs_mobile.Prelude.Int.{pos, ltb_ℤ}
use ipfs_mobile.Lifecycle.{Client, release, close_idle, stop_timer}
use ipfs_mobile.Lifecycle.System.{System, contains, step, sweep}

-- The conditions under which `release` arms the timer.
abbrev pub ArmsTimer : Client → Type 0
ArmsTimer c = (c.inflight - 1 ≡ 0) × (c.closed ≡ false) × (ltb_ℤ (pos 0) c.idle ≡ true)

-- release arms a new, scheduled timer where no download is left, the client is open and an idle
-- timeout is set, and else leaves the timer and the scheduled timers as they were.
pub release-timer :
    (c : Client)
    → (ArmsTimer c
        × ((release c).timer ≡ some c.next_timer)
        × (contains c.next_timer (release c).scheduled ≡ true))
      ⊎ ((¬ ArmsTimer c) × ((release c).timer ≡ c.timer) × ((release c).scheduled ≡ c.scheduled))
unfolding release contains
release-timer c = ground arith

-- Where the callback of a fired timer runs after another timer was armed, on an open client with
-- no download counted and a node, it takes the node at once and forgets the armed timer, which
-- stays scheduled and which stopTimer can no longer stop.
pub sweep-orphans_timer :
    (s : System) (n t : ℕ)
    → 0 < s.sweeps
    → s.client.closed ≡ false
    → s.client.inflight ≡ 0
    → s.client.node ≡ some n
    → s.client.timer ≡ some t
    → contains t s.client.scheduled ≡ true
    → let s' = step s sweep in
      (s'.client.node ≡ none)
      × (s'.doomed ≡ n ∷ s.doomed)
      × (s'.client.timer ≡ none)
      × (contains t s'.client.scheduled ≡ true)
      × (stop_timer s'.client ≡ s'.client)
unfolding step close_idle stop_timer
sweep-orphans_timer s n t fired open' free has armed held = ground arith
