-- ===== src/Hosting.antt =====
-- client/node.go and client/identity.go: `makeHost`, `startNode` and `node.close`, as the calls that
-- they make of the resources of a node. What each constructor returns is chosen from outside, and so
-- is how the dials end, which Dials models.
use ipfs_mobile.Prelude.{
  ℕ, Bool, true, false, not, ◌&&◌, ◌||◌, Option, none, some, List, [], ◌∷◌, ◌++◌, map,
}
use ipfs_mobile.Prelude.Tests.{◌==◌, if◌then◌else◌}
use ipfs_mobile.Prelude.Lists.{length}
use ipfs_mobile.Prelude.Text.{Text, codes}
use ipfs_mobile.Prelude.Int.{ℤ, pos, ltb_ℤ}
use ipfs_mobile.Errors.{Error, Result, ok, err, message, wrapped, ContextErr, context_error}
use ipfs_mobile.Dials.{Reason}
use ipfs_mobile.Peers.{AddrInfo, configured_ids}
use ipfs_mobile.Setup.{NodeConfig, check_identity_seed}
pub mod Order
pub mod Protocol
pub mod Tests

-- What a node opens: the connection manager, the libp2p host, the context `lifetime`, the DHT, the
-- transport over HTTP, the exchange over both transports, and the bitswap client.
pub data Resource : Type 0 where
  connections host lifetime table http exchange client : Resource

-- The calls: a constructor; a `Close`, `Stop` or `cancel`; a use of a resource; a resource given to
-- `libp2p.New`; and the start of a goroutine on the context `lifetime` that uses a resource.
pub data Call : Type 0 where
  opens : Resource → Call
  closes : Resource → Call
  uses : Resource → Call
  hands : Resource → Call
  spawns : Resource → Call

-- The fields of `node` that `close` looks at for nil.
pub record Running : Type 0 where
  pub has_client : Bool
  pub has_exchange : Bool
  pub has_table : Bool

abbrev pub if_set : Bool → List Call → List Call
if_set true calls = calls
if_set false calls = []

-- `node.close`; `snapshotWorth` reads the routing table and the addresses that the host knows.
unfoldable pub close : Running → List Call
close n =
    if_set n.has_table (uses table ∷ uses host ∷ [])
    ++ closes lifetime ∷ if_set n.has_client (closes client ∷ [])
    ++ if_set n.has_exchange (closes exchange ∷ [])
    ++ if_set n.has_table (closes table ∷ [])
    ++ closes host ∷ []

-- `listenOn`: the port of the loopback address, if any.
unfoldable pub listen_on : ℤ → Option ℤ
listen_on port = if ltb_ℤ (pos 0) port then some port else none

-- What the constructors return: a key generated, or made of a seed; the connection manager; the
-- host; and the DHT.
pub record Constructors : Type 0 where
  pub generated : Result Text
  pub of_seed : List ℕ → Result Text
  pub connections : Option Error
  pub new_host : Option ℤ → Text → Option Error
  pub new_table : Option Error

abbrev pub checked_identity : Constructors → List ℕ → Option Error → Result Text
checked_identity k seed (some e) = err e
checked_identity k seed none = if length seed == 0 then k.generated else k.of_seed seed

-- `nodeIdentity`.
unfoldable pub node_identity : Constructors → List ℕ → Result Text
unfolding check_identity_seed
node_identity k seed = checked_identity k seed (check_identity_seed seed)

abbrev pub with_connections :
    Constructors → NodeConfig → Text → Option Error → List Call × Option Error
with_connections k c key (some e) = ([], some (wrapped (codes "building the connection manager") e))
with_connections k c key none =
    (opens connections ∷ hands connections ∷ [], k.new_host (listen_on c.port) key)

abbrev pub with_identity : Constructors → NodeConfig → Result Text → List Call × Option Error
with_identity k c (err e) = ([], some e)
with_identity k c (ok key) = with_connections k c key k.connections

-- `makeHost`.
unfoldable pub make_host : Constructors → NodeConfig → List Call × Option Error
unfolding node_identity listen_on
make_host k c = with_identity k c (node_identity k c.identity_seed)

-- `Protect` of every configured peer.
unfoldable pub protects : List Text → List Call
protects [] = []
protects (id ∷ ids) = uses host ∷ protects ids

-- The goroutines of `dialAll`, which connect through the host or through the transport over HTTP.
unfoldable pub dial_each : Resource → List AddrInfo → List Call
dial_each r [] = []
dial_each r (target ∷ targets) = spawns r ∷ dial_each r targets

-- `httpnet.New`, where there is a host in its allowlist.
abbrev pub serving : List Text → List Call
serving [] = []
serving (name ∷ names) = opens http ∷ []

-- Why a start is refused.
abbrev pub refusal : Option ContextErr → Error
refusal (some e) = context_error e
refusal none = message (codes "none of the peers and gateways could be reached")

abbrev pub dialled : Bool → Option Reason → Option ContextErr → List Call × Result Running
dialled has_table (some reason) ended =
    let n : Running = record { has_client = true; has_exchange = true; has_table = has_table } in
    (if_set has_table (spawns table ∷ []), ok n)
dialled has_table none ended =
    let n : Running = record { has_client = true; has_exchange = true; has_table = has_table } in
    (close n, err (refusal ended))

-- From the exchange on.
abbrev pub exchanging :
    NodeConfig → Bool → Option Reason → Option ContextErr → List Call × Result Running
exchanging c has_table reason ended =
    let rest = dialled has_table reason ended in
    let dialling = dial_each http c.gateways ++ (dial_each host c.peers ++ rest.0) in
    let using = uses exchange ∷ (protects (configured_ids c.peers) ++ dialling) in
    (serving c.gateway_hosts ++ (opens exchange ∷ opens client ∷ using), rest.1)

-- From the DHT on.
abbrev pub finding :
    NodeConfig
    → Bool
    → Option Error
    → Option Reason
    → Option ContextErr
    → List Call × Result Running
finding c true failed reason ended = exchanging c false reason ended
finding c false (some e) reason ended = (
  close (record { has_client = false; has_exchange = false; has_table = false }),
  err (wrapped (codes "starting the dht") e),
)
finding c false none reason ended =
    let rest = exchanging c true reason ended in (opens table ∷ rest.0, rest.1)

abbrev pub hosted :
    Constructors
    → NodeConfig
    → Option Reason
    → Option ContextErr
    → List Call × Option Error
    → List Call × Result Running
hosted k c reason ended (calls, some e) = (calls, err e)
hosted k c reason ended (calls, none) =
    let rest = finding c c.disable_dht k.new_table reason ended in
    (calls ++ opens host ∷ opens lifetime ∷ rest.0, rest.1)

-- `startNode`: its calls, and the node or the error. No reason to hand the node back stands for the
-- refusal.
unfoldable pub start_node :
    Constructors → NodeConfig → Option Reason → Option ContextErr → List Call × Result Running
unfolding make_host protects dial_each close
start_node k c reason ended = hosted k c reason ended (make_host k c)
