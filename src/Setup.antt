-- ===== src/Setup.antt =====
-- client/client.go, client/node.go, client/gateway.go and client/identity.go: how the
-- configuration of a client is checked and parsed. What the libraries parse is a parameter.
use ipfs_mobile.Prelude.{
  ℕ, zero, suc, ◌+◌, ◌-◌, ◌/◌, ◌%◌, ◌*◌, Bool, true, false, not, ◌&&◌, ◌||◌, Option, none, some,
  List, [], ◌∷◌, ◌++◌,
}
use ipfs_mobile.Prelude.Tests.{ltb, leb, ◌==◌, if◌then◌else◌}
use ipfs_mobile.Prelude.Lists.{length}
use ipfs_mobile.Prelude.Text.{Text, text_eq, codes}
use ipfs_mobile.Prelude.Dict.{Dict, lookup, insert}
use ipfs_mobile.Prelude.Int.{ℤ, pos}
use ipfs_mobile.Errors.{Error, Result, ok, err, message, wrapped}
use ipfs_mobile.Durations.{second, or_default, milliseconds}
use ipfs_mobile.Peers.{AddrInfo}
use ipfs_mobile.Resolver.{Net, new_resolver}
pub mod Routes
pub mod Served
pub mod Addresses
pub mod Timeouts
pub mod Tests

-- `url.URL`, as far as it is read: Scheme, Hostname and Port.
pub record Url : Type 0 where
  pub scheme : Text
  pub hostname : Text
  pub port : Text

pub data Family : Type 0 where
  ip4 ip6 : Family

-- The libraries: `url.Parse`; `net.ParseIP` with `To4`; `multiaddr.NewMultiaddr`; the ID that
-- `gatewayPeerID` makes of the hash of a text; `NewMultiaddr` and `AddrInfoFromP2pAddr`, one after
-- the other; `newDelegatedRouter`; and what `newResolver` reads.
pub record Libraries : Type 0 where
  pub parse_url : Text → Result Url
  pub parse_ip : Text → Option Family
  pub new_multiaddr : Text → Result Text
  pub hashed_id : Text → Result Text
  pub p2p_addr : Text → Result AddrInfo
  pub delegated_router : Text → Result Text
  pub net : Net

-- `parsePeers`: the map `infos` and the list `order`.
pub record Parsing : Type 0 where
  pub infos : Dict (List Text)
  pub order : List Text

abbrev pub seen_with : Parsing → AddrInfo → Option (List Text) → Parsing
seen_with s p (some addrs) = record s { infos = insert p.id (addrs ++ p.addrs) s.infos }
seen_with s p none = record { infos = insert p.id p.addrs s.infos; order = s.order ++ (p.id ∷ []) }

abbrev pub add_peer : Parsing → Result AddrInfo → Parsing
add_peer s (err e) = s
add_peer s (ok p) = seen_with s p (lookup p.id s.infos)

-- The first loop of `parsePeers`.
unfoldable pub parse_all : Libraries → Parsing → List Text → Parsing
parse_all l s [] = s
parse_all l s (t ∷ ts) = parse_all l (add_peer s (l.p2p_addr t)) ts

abbrev pub addrs_of : Option (List Text) → List Text
addrs_of none = []
addrs_of (some addrs) = addrs

-- Its second loop.
unfoldable pub in_order : Dict (List Text) → List Text → List AddrInfo
in_order infos [] = []
in_order infos (id ∷ rest) =
    record { id = id; addrs = addrs_of (lookup id infos) } ∷ in_order infos rest

-- `parsePeers`.
unfoldable pub parse_peers : Libraries → List Text → List AddrInfo
unfolding parse_all in_order
parse_peers l addrs =
    let s = parse_all l (record { infos = []; order = [] }) addrs in in_order s.infos s.order

abbrev pub default_port : Text → Option Text
default_port scheme =
    if text_eq scheme (codes "https")
    then some (codes "443")
    else if text_eq scheme (codes "http")
    then some (codes "80")
    else none

abbrev pub port_of : Url → Option Text
port_of u = if text_eq u.port [] then default_port u.scheme else some u.port

abbrev pub protocol_of : Option Family → Text
protocol_of none = codes "dns4"
protocol_of (some ip4) = codes "ip4"
protocol_of (some ip6) = codes "ip6"

abbrev pub bar : Text
bar = codes "/"

abbrev pub address_text : Text → Text → Text → Text → Text
address_text protocol host port scheme =
    bar ++ (protocol ++ (bar ++ (host ++ (codes "/tcp/" ++ (port ++ (bar ++ scheme))))))

abbrev pub with_port : Libraries → Url → Option Text → Result Text
with_port l u none = err (message (codes "unsupported scheme"))
with_port l u (some port) =
    l.new_multiaddr (address_text (protocol_of (l.parse_ip u.hostname)) u.hostname port u.scheme)

abbrev pub of_url : Libraries → Result Url → Result Text
of_url l (err e) = err e
of_url l (ok u) =
    if text_eq u.hostname [] then err (message (codes "no host")) else with_port l u (port_of u)

-- `gatewayMultiaddr`.
unfoldable pub gateway_multiaddr : Libraries → Text → Result Text
gateway_multiaddr l gateway = of_url l (l.parse_url gateway)

-- The three lists that `parseGateways` returns.
pub record Gateways : Type 0 where
  pub peers : List AddrInfo
  pub hosts : List Text
  pub urls : List Text

abbrev pub add_gateway : Text → Result Text → Result Text → Result Url → Gateways → Gateways
add_gateway gateway (ok addr) (ok id) (ok u) g = record {
  peers = record { id = id; addrs = addr ∷ [] } ∷ g.peers;
  hosts = u.hostname ∷ g.hosts;
  urls = gateway ∷ g.urls;
}
add_gateway gateway _ _ _ g = g

-- `parseGateways`.
unfoldable pub parse_gateways : Libraries → List Text → Gateways
unfolding gateway_multiaddr
parse_gateways l [] = record { peers = []; hosts = []; urls = [] }
parse_gateways l (t ∷ ts) =
    add_gateway t (gateway_multiaddr l t) (l.hashed_id t) (l.parse_url t) (parse_gateways l ts)

-- `SeedSize`, which is that of crypto/ed25519.
abbrev pub seed_size : ℕ
seed_size = 32

-- `checkIdentitySeed`.
unfoldable pub check_identity_seed : List ℕ → Option Error
check_identity_seed seed =
    if (length seed == 0) || (length seed == seed_size)
    then none
    else some (message (codes "identity seed has the wrong size"))

-- `Config`.
pub record Config : Type 0 where
  pub bootstrap_peers : List Text
  pub port : ℤ
  pub idle_timeout : ℤ
  pub disable_dht : Bool
  pub identity_seed : List ℕ
  pub peer_snapshot_path : Text
  pub delegated_routing_endpoint : Text
  pub dns_servers : List Text
  pub gateways : List Text
  pub primary_timeout : ℤ
  pub fallback_step_timeout : ℤ
  pub allow_unverified : Bool

-- `nodeConfig`.
pub record NodeConfig : Type 0 where
  pub port : ℤ
  pub peers : List AddrInfo
  pub disable_dht : Bool
  pub identity_seed : List ℕ
  pub snapshot_path : Text
  pub gateways : List AddrInfo
  pub gateway_hosts : List Text
  pub delegated : Option Text
  pub resolver : Option (List Text)

-- What `New` sets in a `Client`.
pub record NewClient : Type 0 where
  pub config : NodeConfig
  pub idle : ℤ
  pub gateways : List Text
  pub allow_unverified : Bool
  pub primary_timeout : ℤ
  pub fallback_step_timeout : ℤ

abbrev pub node_config : Config → List AddrInfo → Gateways → Option (List Text) → NodeConfig
node_config c peers g resolver = record {
  port = c.port;
  peers = peers;
  disable_dht = c.disable_dht;
  identity_seed = c.identity_seed;
  snapshot_path = c.peer_snapshot_path;
  gateways = g.peers;
  gateway_hosts = g.hosts;
  delegated = none;
  resolver = resolver;
}

abbrev pub with_delegated : Libraries → Text → NodeConfig → Result NodeConfig
with_delegated l endpoint n =
    if text_eq endpoint [] then ok n else elim (l.delegated_router endpoint) [
      | err e ↦ err (wrapped (codes "delegated routing endpoint") e)
      | ok r ↦ ok (record n { delegated = some r })
    ]

abbrev pub has_route : NodeConfig → Bool
has_route n = not (
    (length n.peers == 0)
    && ((length n.gateways == 0) && elim n.delegated [ none ↦ true | some r ↦ false ]))

abbrev pub default_timeout : ℤ
default_timeout = pos (15 * second)

abbrev pub finish : Config → Gateways → Result NodeConfig → Result NewClient
finish c g (err e) = err e
finish c g (ok n) =
    if has_route n
    then ok (record {
      config = n;
      idle = c.idle_timeout;
      gateways = g.urls;
      allow_unverified = c.allow_unverified;
      primary_timeout = or_default c.primary_timeout default_timeout;
      fallback_step_timeout = or_default c.fallback_step_timeout default_timeout;
    })
    else err (message (codes "there is nowhere to fetch from"))

abbrev pub with_resolver :
    Libraries → Config → List AddrInfo → Gateways → Result (Option (List Text)) → Result NewClient
with_resolver l c peers g (err e) = err e
with_resolver l c peers g (ok r) =
    finish c g (with_delegated l c.delegated_routing_endpoint (node_config c peers g r))

abbrev pub with_seed :
    Libraries → Config → List AddrInfo → Gateways → Option Error → Result NewClient
with_seed l c peers g (some e) = err e
with_seed l c peers g none = with_resolver l c peers g (new_resolver l.net c.dns_servers)

-- `New`.
unfoldable pub new_client : Libraries → Config → Result NewClient
unfolding check_identity_seed parse_peers parse_gateways
new_client l c =
    with_seed l c (parse_peers l c.bootstrap_peers) (parse_gateways l c.gateways)
      (check_identity_seed c.identity_seed)
