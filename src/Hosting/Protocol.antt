-- ===== src/Hosting/Protocol.antt =====
-- client/node.go: a node opens and closes what it holds in an order in which nothing is used, or
-- stands on anything, that is not open, and gives everything back.
use ipfs_mobile.Prelude.{
  ◌≡◌, ◌≢◌, refl, Bool, true, false, Option, none, some, List, [], ◌∷◌, ◌++◌, ap, sym, ◌∙◌,
  append_assoc, append-nil,
}
use ipfs_mobile.Prelude.Text.{Text}
use ipfs_mobile.Errors.{Error, Result, ok, err, ContextErr}
use ipfs_mobile.Dials.{Reason}
use ipfs_mobile.Peers.{AddrInfo, configured_ids}
use ipfs_mobile.Setup.{NodeConfig}
use ipfs_mobile.Hosting.{
  Resource, host, lifetime, table, http, exchange, client, Call, opens, uses, spawns, Running,
  close, Constructors, protects, dial_each, serving, dialled, exchanging, finding, hosted,
  node_identity, with_connections, with_identity, make_host, start_node,
}
use ipfs_mobile.Hosting.Order.{Opened, nothing_open, when, admit, admit_all, Returned}

-- The protections, with the host open.
protects-admitted :
    (o : Opened) (ids : List Text) (rest : List Call)
    → o.host_up ≡ true
    → admit_all (some o) (protects ids ++ rest) ≡ admit_all (some o) rest
unfolding protects admit_all admit
protects-admitted o [] rest up = refl
protects-admitted o (id ∷ ids) rest up =
    ap (λ q. admit_all q (protects ids ++ rest)) (ap (λ b. when b o) up)
    ∙ protects-admitted o ids rest up

-- With the exchange and the bitswap client; whether with the DHT, the transport over HTTP and a
-- goroutine.
abbrev exchange_open : Bool → Bool → Bool → Opened
exchange_open has_table serves runs = record {
  connections_up = false;
  host_up = true;
  lifetime_up = true;
  table_up = has_table;
  http_up = serves;
  exchange_up = true;
  client_up = true;
  running = runs;
}

abbrev host_open : Bool → Bool → Opened
host_open has_table serves = record {
  connections_up = false;
  host_up = true;
  lifetime_up = true;
  table_up = has_table;
  http_up = serves;
  exchange_up = false;
  client_up = false;
  running = false;
}

-- From a state with something open.
abbrev ReturnedFrom : Opened → List Call × Result Running → Type 0
ReturnedFrom o (calls, err e) = admit_all (some o) calls ≡ some nothing_open
ReturnedFrom o (calls, ok n) = admit_all (some o) (calls ++ close n) ≡ some nothing_open

dialled-Returned :
    (has_table serves runs : Bool) (reason : Option Reason) (ended : Option ContextErr)
    → ReturnedFrom (exchange_open has_table serves runs) (dialled has_table reason ended)
unfolding admit_all close
dialled-Returned true serves runs (some r) ended = refl
dialled-Returned false serves runs (some r) ended = refl
dialled-Returned true serves runs none ended = refl
dialled-Returned false serves runs none ended = refl

protected-Returned :
    (o : Opened) (ids : List Text) (rest : List Call × Result Running)
    → o.host_up ≡ true
    → ReturnedFrom o rest
    → ReturnedFrom o (protects ids ++ rest.0, rest.1)
protected-Returned o ids (calls, err e) up h = protects-admitted o ids calls up ∙ h
protected-Returned o ids (calls, ok n) up h =
    ap (admit_all (some o)) (append_assoc (protects ids) calls (close n))
    ∙ protects-admitted o ids (calls ++ close n) up
    ∙ h

-- One more call in front.
before :
    (o p : Opened) (call : Call) (r : List Call × Result Running)
    → admit o call ≡ some p
    → ReturnedFrom p r
    → ReturnedFrom o (call ∷ r.0, r.1)
unfolding admit_all
before o p call (calls, err e) step h = ap (λ q. admit_all q calls) step ∙ h
before o p call (calls, ok n) step h = ap (λ q. admit_all q (calls ++ close n)) step ∙ h

-- The goroutines of `dialAll`, of which none may be running before, or some.
dial_each-Returned :
    (r : Resource) (o : Bool → Opened) (targets : List AddrInfo) (rest : List Call × Result Running)
    → ((runs : Bool) → admit (o runs) (spawns r) ≡ some (o true))
    → ((runs : Bool) → ReturnedFrom (o runs) rest)
    → (runs : Bool) → ReturnedFrom (o runs) (dial_each r targets ++ rest.0, rest.1)
unfolding dial_each
dial_each-Returned r o [] rest spawn h runs = h runs
dial_each-Returned r o (target ∷ targets) rest spawn h runs =
    before (o runs) (o true) (spawns r) (dial_each r targets ++ rest.0, rest.1) (spawn runs)
      (dial_each-Returned r o targets rest spawn h true)

module _ (c : NodeConfig) (allowed : c.gateways ≢ [] → c.gateway_hosts ≢ []) (has_table : Bool)
    (reason : Option Reason) (ended : Option ContextErr) where
  abbrev dialling_peers : List Call × Result Running
  dialling_peers =
      let rest = dialled has_table reason ended in (dial_each host c.peers ++ rest.0, rest.1)

  abbrev through : List AddrInfo → List Call × Result Running
  through targets = (dial_each http targets ++ dialling_peers.0, dialling_peers.1)

  abbrev exchanging_on : List Call × Result Running → List Call × Result Running
  exchanging_on rest =
      let using = uses exchange ∷ (protects (configured_ids c.peers) ++ rest.0) in
      (opens exchange ∷ opens client ∷ using, rest.1)

  peers-Returned :
      (serves runs : Bool) → ReturnedFrom (exchange_open has_table serves runs) dialling_peers
  unfolding admit
  peers-Returned serves =
      dial_each-Returned host (exchange_open has_table serves) c.peers
        (dialled has_table reason ended) (λ runs. refl)
        (λ runs. dialled-Returned has_table serves runs reason ended)

  exchanged :
      (serves : Bool) (rest : List Call × Result Running)
      → ReturnedFrom (exchange_open has_table serves false) rest
      → ReturnedFrom (host_open has_table serves) (exchanging_on rest)
  unfolding admit
  exchanged serves rest h =
      let here = exchange_open has_table serves false in
      let protected = protected-Returned here (configured_ids c.peers) rest refl h in
      before _ _ (opens exchange) _ refl
        (before _ here (opens client) _ refl (before here here (uses exchange) _ refl protected))

  -- Without a transport over HTTP, there is no gateway to dial.
  gateways-Returned :
      (names : List Text) (targets : List AddrInfo)
      → (targets ≢ [] → names ≢ [])
      → ReturnedFrom
          (host_open has_table false)
          (serving names ++ (exchanging_on (through targets)).0, dialling_peers.1)
  unfolding admit dial_each
  gateways-Returned [] [] h = exchanged false (through []) (peers-Returned false false)
  gateways-Returned [] (g ∷ gs) h = absurd (h (λ e. cc) refl)
  gateways-Returned (name ∷ names) targets h =
      before (host_open has_table false) (host_open has_table true) (opens http)
        (exchanging_on (through targets)) refl
        (exchanged true (through targets) (
          dial_each-Returned http (exchange_open has_table true) targets dialling_peers
            (λ runs. refl) (peers-Returned true) false))

  exchanging-Returned :
      ReturnedFrom (host_open has_table false) (exchanging c has_table reason ended)
  exchanging-Returned = gateways-Returned c.gateway_hosts c.gateways allowed

-- `makeHost` keeps nothing.
made-admitted :
    (k : Constructors) (c : NodeConfig) (rest : List Call)
    → admit_all (some nothing_open) ((make_host k c).0 ++ rest) ≡ admit_all (some nothing_open) rest
unfolding make_host admit_all admit
made-admitted k c rest = named (node_identity k c.identity_seed)
  where
    connected :
        (key : Text) (o : Option Error)
        → admit_all (some nothing_open) ((with_connections k c key o).0 ++ rest)
          ≡ admit_all (some nothing_open) rest
    connected key (some e) = refl
    connected key none = refl

    named :
        (r : Result Text)
        → admit_all (some nothing_open) ((with_identity k c r).0 ++ rest)
          ≡ admit_all (some nothing_open) rest
    named (err e) = refl
    named (ok key) = connected key k.connections

module _ (k : Constructors) (c : NodeConfig) (reason : Option Reason) (ended : Option ContextErr)
    (allowed : c.gateways ≢ [] → c.gateway_hosts ≢ []) where
  finding-Returned :
      (disabled : Bool) (failed : Option Error)
      → ReturnedFrom (host_open false false) (finding c disabled failed reason ended)
  unfolding admit
  finding-Returned true failed = exchanging-Returned c allowed false reason ended
  finding-Returned false (some e) = unfold close admit_all in refl
  finding-Returned false none =
      before (host_open false false) (host_open true false) (opens table) _ refl
        (exchanging-Returned c allowed true reason ended)

  -- Where the configuration has a host that the transport over HTTP may ask if it has a gateway,
  -- whatever the constructors return and however the dials end: no call of startNode, nor of close
  -- on the node that it hands back, uses a resource, opens one on another, or starts a goroutine
  -- of a dial or of the bootstrap on one, that is not open; none closes one on which another that
  -- is open stands, and none closes the host, the DHT or the exchange before the context of those
  -- goroutines is cancelled; and in the end everything that was opened is closed, by startNode
  -- itself where it fails, but for the connection manager, which is handed to libp2p.New.
  pub start_node-Returned : Returned (start_node k c reason ended)
  unfolding start_node admit
  start_node-Returned = go (make_host k c) (made-admitted k c)
    where
      after :
          (rest : List Call × Result Running)
          → ReturnedFrom (host_open false false) rest
          → Returned (opens host ∷ opens lifetime ∷ rest.0, rest.1)
      after rest h =
          let up : Opened = record nothing_open { host_up = true } in
          before nothing_open up (opens host) (opens lifetime ∷ rest.0, rest.1) refl
            (before up (host_open false false) (opens lifetime) rest refl h)

      joined :
          (calls : List Call) (rest : List Call × Result Running)
          → ((more : List Call)
              → admit_all (some nothing_open) (calls ++ more) ≡ admit_all (some nothing_open) more)
          → Returned rest
          → Returned (calls ++ rest.0, rest.1)
      joined calls (more, err e) neutral h = neutral more ∙ h
      joined calls (more, ok n) neutral h =
          ap (admit_all (some nothing_open)) (append_assoc calls more (close n))
          ∙ neutral (more ++ close n)
          ∙ h

      go :
          (m : List Call × Option Error)
          → ((more : List Call)
              → admit_all (some nothing_open) (m.0 ++ more) ≡ admit_all (some nothing_open) more)
          → Returned (hosted k c reason ended m)
      go (calls, some e) neutral =
          ap (admit_all (some nothing_open)) (sym (append-nil calls))
          ∙ neutral []
          ∙ unfold admit_all in refl
      go (calls, none) neutral =
          let rest : List Call × Result Running =
            finding c c.disable_dht k.new_table reason ended in
          joined calls (opens host ∷ opens lifetime ∷ rest.0, rest.1) neutral
            (after rest (finding-Returned c.disable_dht k.new_table))
