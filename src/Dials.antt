-- ===== src/Dials.antt =====
-- client/node.go: the dials of `dialAll`, `awaitConnection`, and how `startNode` decides on them,
-- interleaved; and `redial`. Whether a target answers is chosen by the event.
use ipfs_mobile.Prelude.{
  ℕ, zero, suc, ◌+◌, Bool, true, false, not, ◌&&◌, ◌||◌, Option, none, some, List, [], ◌∷◌,
}
use ipfs_mobile.Prelude.Tests.{◌==◌, if◌then◌else◌}
use ipfs_mobile.Prelude.Lists.{get_elem?, set}
use ipfs_mobile.Errors.{ContextErr}
pub mod Invariant
pub mod Starting
pub mod Redialling
pub mod Tests

-- Where the goroutine of one dial stands: in `connect`, between counting its answer and the
-- `once.Do` after it, or through, with whether its target answered.
pub data Dial : Type 0 where
  dialling : Dial
  counted : Dial
  over : Bool → Dial

-- `dialGroup`, with the goroutines that `dialAll` starts. `first` and `done` say whether the
-- channels are closed; there are fewer than 2 ^ 31 targets, so the counter does not wrap around.
pub record Group : Type 0 where
  pub dials : List Dial
  pub connected : ℕ
  pub first : Bool
  pub done : Bool

unfoldable pub fresh_dials : ℕ → List Dial
fresh_dials zero = []
fresh_dials (suc n) = dialling ∷ fresh_dials n

-- `dialAll`, of so many targets: with none, `done` is closed at once.
unfoldable pub dial_all : ℕ → Group
unfolding fresh_dials
dial_all targets = record {
  dials = fresh_dials targets;
  connected = 0;
  first = false;
  done = targets == 0;
}

abbrev pub is_over : Dial → Bool
is_over (over b) = true
is_over _ = false

-- What `wait.Wait()` waits for.
unfoldable pub all_over : List Dial → Bool
all_over [] = true
all_over (d ∷ ds) = is_over d && all_over ds

-- What happens next to one dial, or that the goroutine behind `wait.Wait()` closes `done`.
pub data DialEvent : Type 0 where
  answers : ℕ → DialEvent
  fails : ℕ → DialEvent
  proceeds : ℕ → DialEvent
  settles : DialEvent

abbrev pub answered : Group → ℕ → Option Dial → Group
answered g i (some dialling) = record g {
  dials = set g.dials i counted;
  connected = g.connected + 1;
}
answered g i _ = g

abbrev pub failed : Group → ℕ → Option Dial → Group
failed g i (some dialling) = record g { dials = set g.dials i (over false) }
failed g i _ = g

abbrev pub proceeded : Group → ℕ → Option Dial → Group
proceeded g i (some counted) = record g { dials = set g.dials i (over true); first = true }
proceeded g i _ = g

-- One step of the goroutines of a group. An event that is not possible changes nothing.
unfoldable pub dial_step : Group → DialEvent → Group
unfolding all_over
dial_step g (answers i) = answered g i (get_elem? g.dials i)
dial_step g (fails i) = failed g i (get_elem? g.dials i)
dial_step g (proceeds i) = proceeded g i (get_elem? g.dials i)
dial_step g settles = if all_over g.dials then record g { done = true } else g

-- Why `startNode` hands a node back.
pub data Reason : Type 0 where
  reachable : Reason
  indexed : Reason
  pending : Reason

-- Where `startNode` stands: in the `select` of `awaitConnection`, before each of the calls of
-- `count` and `finished`, in that order, or at its end.
pub data Starter : Type 0 where
  awaiting : Starter
  counting_gateways : Starter
  counting_peers : Starter
  finishing_gateways : Starter
  finishing_peers : Starter
  started : Reason → Starter
  refused : Starter

-- The case of the `select` that is taken: `times_out` stands for the end of `wait`, which is the
-- caller's context or the startup timeout.
pub data Wakeup : Type 0 where
  first_gateway first_peer exhausted times_out : Wakeup

pub record Start : Type 0 where
  pub gateways : Group
  pub peers : Group
  pub delegated : Bool
  pub starter : Starter

abbrev pub can_wake : Start → Wakeup → Bool
can_wake s first_gateway = (s.gateways).first
can_wake s first_peer = (s.peers).first
can_wake s exhausted = (s.gateways).done && (s.peers).done
can_wake s times_out = true

-- After the two counts, both 0: a router of an indexer is enough.
abbrev pub decide : Bool → Starter
decide true = started indexed
decide false = finishing_gateways

-- One step of `startNode`, a call of `count` or `finished` at a time.
unfoldable pub start_step : Start → Starter → Starter
start_step s counting_gateways =
    if (s.gateways).connected == 0 then counting_peers else started reachable
start_step s counting_peers =
    if (s.peers).connected == 0 then decide s.delegated else started reachable
start_step s finishing_gateways = if (s.gateways).done then finishing_peers else started pending
start_step s finishing_peers = if (s.peers).done then refused else started pending
start_step s p = p

pub data Action : Type 0 where
  gateway : DialEvent → Action
  peer : DialEvent → Action
  wake : Wakeup → Action
  advance : Action

abbrev pub woken : Start → Bool → Starter → Starter
woken s true awaiting = counting_gateways
woken s _ p = p

unfoldable pub step : Start → Action → Start
unfolding dial_step start_step
step s (gateway e) = record s { gateways = dial_step s.gateways e }
step s (peer e) = record s { peers = dial_step s.peers e }
step s (wake w) = record s { starter = woken s (can_wake s w) s.starter }
step s advance = record s { starter = start_step s s.starter }

unfoldable pub run : Start → List Action → Start
run s [] = s
run s (a ∷ as') = run (step s a) as'

-- `startNode` after its calls of `dialAll`, with so many gateways and peers.
unfoldable pub initial : ℕ → ℕ → Bool → Start
unfolding dial_all
initial gateways peers delegated = record {
  gateways = dial_all gateways;
  peers = dial_all peers;
  delegated = delegated;
  starter = awaiting;
}

-- The fields of `node` that `redial` reads: whether there is an HTTP exchange, and the groups.
pub record Dialled : Type 0 where
  pub http : Bool
  pub peer_dials : Option Group
  pub gateway_dials : Option Group

abbrev pub still_running : Option Group → Bool
still_running none = false
still_running (some g) = not g.done

-- `redial`, with the number of libp2p peers that are connected, and those configured.
unfoldable pub redial : ℕ → ℕ → ℕ → Dialled → Dialled
unfolding dial_all
redial connected peers gateways n =
    if not (connected == 0) then n else if still_running n.peer_dials then n else record n {
      peer_dials = some (dial_all peers);
      gateway_dials = if n.http then some (dial_all gateways) else n.gateway_dials;
    }
