-- ===== src/Peers.antt =====
-- client/gater.go, client/snapshot.go and client/routing.go: which addresses are dialled, which
-- peers a snapshot keeps, and how the routers are composed.
use ipfs_mobile.Prelude.{
  ℕ, suc, zero, ◌+◌, Bool, true, false, not, ◌&&◌, ◌||◌, Option, none, some, List, [], ◌∷◌, ◌++◌,
}
use ipfs_mobile.Prelude.Tests.{ltb, ◌==◌, if◌then◌else◌}
use ipfs_mobile.Prelude.Lists.{length}
use ipfs_mobile.Prelude.Text.{Text, text_eq, codes}
use ipfs_mobile.Errors.{is_some}
pub mod Snapshot
pub mod Tests

-- `peer.AddrInfo`: an ID and addresses, both by their text.
pub record AddrInfo : Type 0 where
  pub id : Text
  pub addrs : List Text

-- What go-multiaddr finds in an address: `IsPrivateAddr`, `IsIPLoopback`, and whether `ToIP`
-- succeeds.
pub record Manet : Type 0 where
  pub is_private : Text → Bool
  pub is_loopback : Text → Bool
  pub is_ip : Text → Bool

unfoldable pub elem : Text → List Text → Bool
elem t [] = false
elem t (u ∷ us) = text_eq u t || elem t us

-- The keys of the set that `newDiscoveredAddrGater` and `snapshotWorth` make.
unfoldable pub configured_ids : List AddrInfo → List Text
configured_ids [] = []
configured_ids (p ∷ ps) = p.id ∷ configured_ids ps

-- `dialableAddr`.
unfoldable pub dialable_addr : Manet → Text → Bool
dialable_addr net addr = if not (net.is_private addr) then true else net.is_loopback addr

-- `discoveredAddrGater.InterceptAddrDial`.
unfoldable pub intercept_addr_dial : Manet → List AddrInfo → Text → Text → Bool
unfolding dialable_addr elem configured_ids
intercept_addr_dial net configured id addr =
    if elem id (configured_ids configured) then true else dialable_addr net addr

-- `snapshotPeers`.
abbrev pub snapshot_peers : ℕ
snapshot_peers = 64

-- `snapshotAddrs`.
unfoldable pub snapshot_addrs : Manet → List Text → List Text
unfolding dialable_addr
snapshot_addrs net [] = []
snapshot_addrs net (addr ∷ rest) =
    let kept = snapshot_addrs net rest in
    if not (net.is_ip addr)
    then kept
    else if not (dialable_addr net addr)
    then kept
    else addr ∷ kept

-- The loop of `snapshotWorth` over the peers of the routing table, with the addresses that the
-- peerstore holds for them; `worth` is the number of those kept so far.
unfoldable pub worth_from : Manet → List Text → ℕ → List AddrInfo → List AddrInfo
unfolding snapshot_addrs elem
worth_from net skip worth [] = []
worth_from net skip worth (p ∷ ps) =
    let skipped = worth_from net skip worth ps in
    let further = worth_from net skip (worth + 1) ps in
    let kept = snapshot_addrs net p.addrs in
    if worth == snapshot_peers
    then []
    else if elem p.id skip
    then skipped
    else if length kept == 0
    then skipped
    else record { id = p.id; addrs = kept } ∷ further

-- `snapshotWorth`; a node without a DHT has no table.
unfoldable pub snapshot_worth : Manet → Option (List AddrInfo) → List AddrInfo → List AddrInfo
unfolding worth_from configured_ids
snapshot_worth net none configured = []
snapshot_worth net (some table) configured = worth_from net (configured_ids configured) 0 table

abbrev pub p2p : Text
p2p = codes "/p2p/"

abbrev pub newline : Text
newline = codes "\n"

unfoldable pub peer_lines : Text → List Text → Text
peer_lines id [] = []
peer_lines id (addr ∷ rest) = addr ++ (p2p ++ (id ++ (newline ++ peer_lines id rest)))

-- The text that `writePeerSnapshot` writes.
unfoldable pub snapshot_text : List AddrInfo → Text
unfolding peer_lines
snapshot_text [] = []
snapshot_text (p ∷ ps) = peer_lines p.id p.addrs ++ snapshot_text ps

-- `newProviderFinder` over routers of a type, where a nil interface is `none`.
pub data Finder {ℓ} (R : Type ℓ) : Type ℓ where
  no_routing : Finder R
  single : R → Finder R
  parallel : List R → Finder R

unfoldable pub configured_routers {ℓ} : {R : Type ℓ} → List (Option R) → List R
configured_routers [] = []
configured_routers (none ∷ rest) = configured_routers rest
configured_routers (some r ∷ rest) = r ∷ configured_routers rest

abbrev pub composed {ℓ} : {R : Type ℓ} → List R → Finder R
composed [] = no_routing
composed (r ∷ []) = single r
composed (r ∷ s ∷ rest) = parallel (r ∷ s ∷ rest)

unfoldable pub new_provider_finder {ℓ} : {R : Type ℓ} → List (Option R) → Finder R
unfolding configured_routers
new_provider_finder routers = composed (configured_routers routers)
