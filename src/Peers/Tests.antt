-- ===== src/Peers/Tests.antt =====
-- client/snapshot.go: a table of two peers, one of them configured, and the theorems at it.
use ipfs_mobile.Prelude.{◌≡◌, refl, true, false, some, [], ◌∷◌}
use ipfs_mobile.Prelude.Text.{codes, text_eq}
use ipfs_mobile.Peers.{
  AddrInfo, Manet, elem, configured_ids, dialable_addr, snapshot_addrs, worth_from, snapshot_worth,
}

abbrev net : Manet
net = record {
  is_private = λ a. text_eq a (codes "10.0.0.1");
  is_loopback = λ a. false;
  is_ip = λ a. true;
}

abbrev known : AddrInfo
known = record { id = codes "k"; addrs = codes "1.1.1.1" ∷ [] }

abbrev met : AddrInfo
met = record { id = codes "m"; addrs = codes "10.0.0.1" ∷ codes "2.2.2.2" ∷ [] }

one_is_worth :
    snapshot_worth net (some (known ∷ met ∷ [])) (known ∷ [])
    ≡ record { id = codes "m"; addrs = codes "2.2.2.2" ∷ [] } ∷ []
unfolding snapshot_worth worth_from snapshot_addrs dialable_addr elem configured_ids text_eq
one_is_worth = refl
