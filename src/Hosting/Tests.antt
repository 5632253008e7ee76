-- ===== src/Hosting/Tests.antt =====
-- client/node.go: a node with a DHT, one peer and one gateway, and the theorem at it.
use ipfs_mobile.Prelude.{◌≡◌, refl, true, false, none, some, [], ◌∷◌}
use ipfs_mobile.Prelude.Text.{codes}
use ipfs_mobile.Prelude.Int.{pos}
use ipfs_mobile.Errors.{ok}
use ipfs_mobile.Dials.{pending}
use ipfs_mobile.Peers.{configured_ids}
use ipfs_mobile.Setup.{NodeConfig, check_identity_seed}
use ipfs_mobile.Hosting.{
  connections, host, lifetime, table, http, exchange, client, opens, closes, uses, hands, spawns,
  Constructors, start_node, make_host, node_identity, protects, dial_each, close,
}
use ipfs_mobile.Hosting.Order.{Returned, nothing_open, admit, admit_all}
use ipfs_mobile.Hosting.Protocol.{start_node-Returned}

abbrev constructors : Constructors
constructors = record {
  generated = ok (codes "key");
  of_seed = λ seed. ok (codes "seeded");
  connections = none;
  new_host = λ port key. none;
  new_table = none;
}

abbrev config : NodeConfig
config = record {
  port = pos 0;
  peers = record { id = codes "a"; addrs = codes "1" ∷ [] } ∷ [];
  disable_dht = false;
  identity_seed = [];
  snapshot_path = [];
  gateways = record { id = codes "g"; addrs = codes "2" ∷ [] } ∷ [];
  gateway_hosts = codes "gateway.org" ∷ [];
  delegated = none;
  resolver = none;
}

start_node-Returned_example : Returned (start_node constructors config (some pending) none)
start_node-Returned_example =
    start_node-Returned constructors config (some pending) none (λ given e. cc)

-- A start that hands its node back with dials pending leaves their goroutines, and that of the
-- bootstrap, running.
started_calls :
    (start_node constructors config (some pending) none).0
    ≡ opens connections
      ∷ hands connections
      ∷ opens host
      ∷ opens lifetime
      ∷ opens table
      ∷ opens http
      ∷ opens exchange
      ∷ opens client
      ∷ uses exchange
      ∷ uses host
      ∷ spawns http
      ∷ spawns host
      ∷ spawns table
      ∷ []
unfolding start_node make_host node_identity check_identity_seed protects dial_each close
    configured_ids
started_calls = refl

-- A close cancels them first, and closes the client before the exchange.
closing_calls :
    close (record { has_client = true; has_exchange = true; has_table = true })
    ≡ uses table
      ∷ uses host
      ∷ closes lifetime
      ∷ closes client
      ∷ closes exchange
      ∷ closes table
      ∷ closes host
      ∷ []
unfolding close
closing_calls = refl

-- Without the cancellation, the exchange would be closed under the goroutines of the dials.
uncancelled :
    admit_all (some nothing_open) (
      opens host
      ∷ opens lifetime
      ∷ opens exchange
      ∷ spawns host
      ∷ closes exchange
      ∷ closes lifetime
      ∷ closes host
      ∷ [])
    ≡ none
unfolding admit_all admit
uncancelled = refl
