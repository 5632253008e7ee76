-- ===== src/Setup/Served.antt =====
-- client/client.go and client/gateway.go: a client that New returns has an HTTP host to ask wherever
-- it has a gateway to dial, as startNode relies on.
use ipfs_mobile.Prelude.{◌≢◌, refl, inl, inr, Option, none, some, List, [], ◌∷◌}
use ipfs_mobile.Prelude.Tests.{Bool-cases}
use ipfs_mobile.Prelude.Text.{Text, codes, text_eq}
use ipfs_mobile.Errors.{Error, Result, ok, err, wrapped}
use ipfs_mobile.Peers.{AddrInfo}
use ipfs_mobile.Resolver.{new_resolver}
use ipfs_mobile.Setup.{
  Url, Libraries, Gateways, Config, NodeConfig, NewClient, gateway_multiaddr, add_gateway,
  parse_gateways, check_identity_seed, has_route, finish, with_delegated, with_resolver, with_seed,
  new_client, parse_peers, node_config,
}

abbrev pub Served : NodeConfig → Type 0
Served n = n.gateways ≢ [] → n.gateway_hosts ≢ []

-- What is returned without an error is served.
abbrev Serving : Result NodeConfig → Type 0
Serving (err e) = Unit
Serving (ok n) = Served n

abbrev ServedGateways : Gateways → Type 0
ServedGateways g = g.peers ≢ [] → g.hosts ≢ []

abbrev pub ServedClient : Result NewClient → Type 0
ServedClient (err e) = Unit
ServedClient (ok n) = Served n.config

add_gateway-Served :
    (t : Text) (addr id : Result Text) (u : Result Url) (g : Gateways)
    → ServedGateways g
    → ServedGateways (add_gateway t addr id u g)
add_gateway-Served t (ok addr) (ok id) (ok u) g h = λ some_peer e. cc
add_gateway-Served t (ok addr) (ok id) (err e) g h = h
add_gateway-Served t (ok addr) (err e) u g h = h
add_gateway-Served t (err e) id u g h = h

parse_gateways-Served : (l : Libraries) (ts : List Text) → ServedGateways (parse_gateways l ts)
unfolding parse_gateways
parse_gateways-Served l [] = λ some_peer e. some_peer refl
parse_gateways-Served l (t ∷ ts) =
    add_gateway-Served t (gateway_multiaddr l t) (l.hashed_id t) (l.parse_url t)
      (parse_gateways l ts) (parse_gateways-Served l ts)

with_delegated-Served :
    (l : Libraries) (endpoint : Text) (n : NodeConfig)
    → Served n
    → Serving (with_delegated l endpoint n)
with_delegated-Served l endpoint n h = elim (Bool-cases (text_eq endpoint [])) [
  | inl b ↦ rw b h
  | inr b ↦ rw b (go (l.delegated_router endpoint))
]
  where
    go :
        (r : Result Text)
        → Serving (elim r [
          | err e ↦ err (wrapped (codes "delegated routing endpoint") e)
          | ok d ↦ ok (record n { delegated = some d })
        ])
    go (err e) = tt
    go (ok d) = h

finish-Served :
    (c : Config) (g : Gateways) (r : Result NodeConfig) → Serving r → ServedClient (finish c g r)
finish-Served c g (err e) h = tt
finish-Served c g (ok n) h = elim (Bool-cases (has_route n)) [ inl b ↦ rw b h | inr b ↦ rw b tt ]

-- Whatever the configuration and the libraries, a client that New returns has a host in the allowlist
-- of the transport over HTTP if it has a gateway.
pub new_client-Served : (l : Libraries) (c : Config) → ServedClient (new_client l c)
unfolding new_client
new_client-Served l c = seeded (check_identity_seed c.identity_seed)
  where
    peers : List AddrInfo
    peers = parse_peers l c.bootstrap_peers

    g : Gateways
    g = parse_gateways l c.gateways

    resolved : (r : Result (Option (List Text))) → ServedClient (with_resolver l c peers g r)
    resolved (err e) = tt
    resolved (ok r) =
        finish-Served c g (with_delegated l c.delegated_routing_endpoint (node_config c peers g r))
          (with_delegated-Served l c.delegated_routing_endpoint (node_config c peers g r)
            (parse_gateways-Served l c.gateways))

    seeded : (o : Option Error) → ServedClient (with_seed l c peers g o)
    seeded (some e) = tt
    seeded none = resolved (new_resolver l.net c.dns_servers)
