-- ===== src/Setup/Tests.antt =====
-- client/client.go and client/node.go: a configuration of three entries, and the theorems at it.
use ipfs_mobile.Prelude.{◌*◌, ◌≡◌, refl, true, false, none, List, [], ◌∷◌}
use ipfs_mobile.Prelude.Text.{Text, text_eq, codes}
use ipfs_mobile.Prelude.Dict.{lookup, insert}
use ipfs_mobile.Prelude.Int.{pos}
use ipfs_mobile.Errors.{Result, ok, err, message}
use ipfs_mobile.Durations.{second, or_default}
use ipfs_mobile.Peers.{AddrInfo}
use ipfs_mobile.Resolver.{Net, new_resolver}
use ipfs_mobile.Setup.{
  Libraries, Config, NewClient, parse_all, in_order, parse_peers, parse_gateways,
  check_identity_seed, new_client,
}

-- An entry is a peer's ID, at an address that is the same for all.
abbrev p2p_addr : Text → Result AddrInfo
p2p_addr [] = err (message [])
p2p_addr (c ∷ s) = ok (record { id = c ∷ []; addrs = s ∷ [] })

abbrev net : Net
net = record { splits = λ t. false; is_addr = λ t. true; join_port = λ a p. a }

abbrev libraries : Libraries
libraries = record {
  parse_url = λ t. ok (record { scheme = codes "https"; hostname = t; port = [] });
  parse_ip = λ t. none;
  new_multiaddr = λ t. ok t;
  hashed_id = λ t. ok t;
  p2p_addr = p2p_addr;
  delegated_router = λ t. ok t;
  net = net;
}

abbrev entries : List Text
entries = codes "a1" ∷ codes "b2" ∷ [] ∷ codes "a3" ∷ []

gathered :
    parse_peers libraries entries
    ≡ record { id = codes "a"; addrs = codes "1" ∷ codes "3" ∷ [] }
      ∷ record { id = codes "b"; addrs = codes "2" ∷ [] }
      ∷ []
unfolding parse_peers parse_all in_order lookup insert text_eq
gathered = refl

abbrev config : Config
config = record {
  bootstrap_peers = entries;
  port = pos 0;
  idle_timeout = pos 0;
  disable_dht = true;
  identity_seed = [];
  peer_snapshot_path = [];
  delegated_routing_endpoint = [];
  dns_servers = [];
  gateways = [];
  primary_timeout = pos 0;
  fallback_step_timeout = pos 0;
  allow_unverified = false;
}

abbrev made : NewClient
made = record {
  config = record {
    port = pos 0;
    peers =
        record { id = codes "a"; addrs = codes "1" ∷ codes "3" ∷ [] }
        ∷ record { id = codes "b"; addrs = codes "2" ∷ [] }
        ∷ [];
    disable_dht = true;
    identity_seed = [];
    snapshot_path = [];
    gateways = [];
    gateway_hosts = [];
    delegated = none;
    resolver = none;
  };
  idle = pos 0;
  gateways = [];
  allow_unverified = false;
  primary_timeout = pos (15 * second);
  fallback_step_timeout = pos (15 * second);
}

made_of_config : new_client libraries config ≡ ok made
unfolding new_client parse_peers parse_gateways check_identity_seed parse_all in_order lookup insert
    text_eq new_resolver or_default
made_of_config = refl
