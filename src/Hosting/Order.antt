-- ===== src/Hosting/Order.antt =====
-- client/node.go: which call of a resource of a node may follow which.
use ipfs_mobile.Prelude.{
  ◌≡◌, Bool, true, false, not, ◌&&◌, ◌||◌, Option, none, some, List, [], ◌∷◌, ◌++◌,
}
use ipfs_mobile.Errors.{Result, ok, err}
use ipfs_mobile.Hosting.{
  Resource, connections, host, lifetime, table, http, exchange, client, Call, opens, closes, uses,
  hands, spawns, Running, close,
}

-- The resources that are open, and whether a goroutine may be running whose context is not
-- cancelled. The DHT, the exchange and the transport over HTTP stand on the host, the bitswap client
-- on the exchange, which takes the transport over and stops it too; the connection manager is the
-- host's once `libp2p.New` has it.
pub record Opened : Type 0 where
  pub connections_up : Bool
  pub host_up : Bool
  pub lifetime_up : Bool
  pub table_up : Bool
  pub http_up : Bool
  pub exchange_up : Bool
  pub client_up : Bool
  pub running : Bool

abbrev pub nothing_open : Opened
nothing_open = record {
  connections_up = false;
  host_up = false;
  lifetime_up = false;
  table_up = false;
  http_up = false;
  exchange_up = false;
  client_up = false;
  running = false;
}

abbrev pub when : Bool → Opened → Option Opened
when true o = some o
when false o = none

abbrev pub is_up : Opened → Resource → Bool
is_up o connections = o.connections_up
is_up o host = o.host_up
is_up o lifetime = o.lifetime_up
is_up o table = o.table_up
is_up o http = o.http_up
is_up o exchange = o.exchange_up
is_up o client = o.client_up

-- One call: none where it breaks the order.
unfoldable pub admit : Opened → Call → Option Opened
admit o (opens connections) = when (not o.connections_up) (record o { connections_up = true })
admit o (opens host) = when (not o.host_up) (record o { host_up = true })
admit o (opens lifetime) = when (not o.lifetime_up) (record o { lifetime_up = true })
admit o (opens table) = when (o.host_up && not o.table_up) (record o { table_up = true })
admit o (opens http) = when (o.host_up && not o.http_up) (record o { http_up = true })
admit o (opens exchange) = when (o.host_up && not o.exchange_up) (record o { exchange_up = true })
admit o (opens client) = when (o.exchange_up && not o.client_up) (record o { client_up = true })
admit o (closes connections) = none
admit o (closes host) =
    when (o.host_up && not (o.running || o.table_up || o.exchange_up || o.http_up))
      (record o { host_up = false })
admit o (closes lifetime) = when o.lifetime_up (record o { lifetime_up = false; running = false })
admit o (closes table) = when (o.table_up && not o.running) (record o { table_up = false })
admit o (closes http) = none
admit o (closes exchange) =
    when (o.exchange_up && not (o.running || o.client_up))
      (record o { exchange_up = false; http_up = false })
admit o (closes client) = when o.client_up (record o { client_up = false })
admit o (uses r) = when (is_up o r) o
admit o (hands connections) = when o.connections_up (record o { connections_up = false })
admit o (hands _) = none
admit o (spawns r) = when (o.lifetime_up && is_up o r) (record o { running = true })

unfoldable pub admit_all : Option Opened → List Call → Option Opened
unfolding admit
admit_all none calls = none
admit_all (some o) [] = some o
admit_all (some o) (call ∷ calls) = admit_all (admit o call) calls

-- Everything is given back: by a start that fails itself, and by the close of a node that starts.
abbrev pub Returned : List Call × Result Running → Type 0
Returned (calls, err e) = admit_all (some nothing_open) calls ≡ some nothing_open
Returned (calls, ok n) = admit_all (some nothing_open) (calls ++ close n) ≡ some nothing_open
