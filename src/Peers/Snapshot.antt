-- ===== src/Peers/Snapshot.antt =====
-- client/snapshot.go: the bound on a snapshot, and that reading it back asks for no dial that the
-- gater would refuse.
use ipfs_mobile.Prelude.{
  ℕ, ◌+◌, ◌≡◌, ◌≤◌, ◌≢◌, true, false, inl, inr, Option, none, some, List, [], ◌∷◌, arith,
}
use ipfs_mobile.Prelude.Tests.{◌==◌, Bool-cases}
use ipfs_mobile.Prelude.Lists.{length, All}
use ipfs_mobile.Prelude.Text.{Text}
use ipfs_mobile.Peers.{
  AddrInfo, Manet, elem, configured_ids, dialable_addr, snapshot_peers, snapshot_addrs, worth_from,
  snapshot_worth,
}

length-worth_from :
    (net : Manet) (skip : List Text) (n : ℕ) (table : List AddrInfo)
    → n ≤ snapshot_peers
    → length (worth_from net skip n table) + n ≤ snapshot_peers
unfolding worth_from
length-worth_from net skip n [] small = omega arith
length-worth_from net skip n (p ∷ ps) small =
    ground (arith, length-worth_from net skip n ps small, length-worth_from net skip (n + 1) ps)

-- A snapshot names at most snapshotPeers peers, however many the routing table holds.
pub length-snapshot_worth :
    (net : Manet) (table : Option (List AddrInfo)) (configured : List AddrInfo)
    → length (snapshot_worth net table configured) ≤ snapshot_peers
unfolding snapshot_worth
length-snapshot_worth net none configured = omega arith
length-snapshot_worth net (some table) configured =
    omega (arith, length-worth_from net (configured_ids configured) 0 table (omega arith))

-- The address is an IP address that the gater lets any peer be dialled at.
abbrev pub Dialable : Manet → Text → Type 0
Dialable net addr = (net.is_ip addr ≡ true) × (dialable_addr net addr ≡ true)

-- A peer that is worth writing down is not configured, and has addresses, all of them dialable.
abbrev pub Kept : Manet → List Text → AddrInfo → Type 0
Kept net skip p = (elem p.id skip ≡ false) × (p.addrs ≢ []) × All (Dialable net) p.addrs

snapshot_addrs-Dialable :
    (net : Manet) (addrs : List Text) → All (Dialable net) (snapshot_addrs net addrs)
unfolding snapshot_addrs
snapshot_addrs-Dialable net [] = tt
snapshot_addrs-Dialable net (addr ∷ rest) = elim (Bool-cases (net.is_ip addr)) [
  | inr i ↦ rw i (snapshot_addrs-Dialable net rest)
  | inl i ↦ elim (Bool-cases (dialable_addr net addr)) [
    | inr d ↦ rw (i, d) (snapshot_addrs-Dialable net rest)
    | inl d ↦ rw (i, d) ((i, d), snapshot_addrs-Dialable net rest)
  ]
]

worth_from-Kept :
    (net : Manet) (skip : List Text) (n : ℕ) (table : List AddrInfo)
    → All (Kept net skip) (worth_from net skip n table)
unfolding worth_from
worth_from-Kept net skip n [] = tt
worth_from-Kept net skip n (p ∷ ps) = elim (Bool-cases (n == snapshot_peers)) [
  | inl full ↦ rw full tt
  | inr full ↦ elim (Bool-cases (elem p.id skip)) [
    | inl known ↦ rw (full, known) (worth_from-Kept net skip n ps)
    | inr known ↦ elim (Bool-cases (length (snapshot_addrs net p.addrs) == 0)) [
      | inl bare ↦ rw (full, known, bare) (worth_from-Kept net skip n ps)
      | inr bare ↦
          rw (full, known, bare)
            (
              (
                known,
                filled (snapshot_addrs net p.addrs) bare,
                snapshot_addrs-Dialable net p.addrs,
              ),
              worth_from-Kept net skip (n + 1) ps,
            )
    ]
  ]
]
  where
    filled : (addrs : List Text) → (length addrs == 0) ≡ false → addrs ≢ []
    filled [] h e = cc
    filled (a ∷ as') h e = cc

-- Every peer of a snapshot is not configured and has at least one address; each of its addresses
-- is an IP address, and the rule of the gater for discovered peers allows it to be dialled.
pub snapshot_worth-Kept :
    (net : Manet) (table : Option (List AddrInfo)) (configured : List AddrInfo)
    → All (Kept net (configured_ids configured)) (snapshot_worth net table configured)
unfolding snapshot_worth
snapshot_worth-Kept net none configured = tt
snapshot_worth-Kept net (some table) configured =
    worth_from-Kept net (configured_ids configured) 0 table
