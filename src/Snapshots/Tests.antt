-- ===== src/Snapshots/Tests.antt =====
-- client/snapshot.go: a snapshot of two peers, and the theorems at it.
use ipfs_mobile.Prelude.{ℕ, ◌*◌, ◌≡◌, refl, true, false, none, some, List, [], ◌∷◌}
use ipfs_mobile.Prelude.Lists.{All}
use ipfs_mobile.Prelude.Text.{Text, codes, text_eq}
use ipfs_mobile.Prelude.Dict.{Dict}
use ipfs_mobile.Prelude.Int.{pos}
use ipfs_mobile.Durations.{second}
use ipfs_mobile.Errors.{Result, ok, err, message}
use ipfs_mobile.Peers.{AddrInfo, snapshot_text}
use ipfs_mobile.Resolver.{Net}
use ipfs_mobile.Setup.{Libraries}
use ipfs_mobile.Snapshots.Words.{named, IsWord}
use ipfs_mobile.Snapshots.{is_space, Writing, read_peer_snapshot, write_peer_snapshot}
use ipfs_mobile.Snapshots.Atomic.{OldOrNew, write_peer_snapshot-OldOrNew}
use ipfs_mobile.Snapshots.RoundTrip.{read-write}

-- An address is one byte, and so is an ID.
abbrev p2p_addr : Text → Result AddrInfo
p2p_addr (c ∷ _ ∷ _ ∷ _ ∷ _ ∷ _ ∷ id) = ok (record { id = id; addrs = (c ∷ []) ∷ [] })
p2p_addr _ = err (message [])

abbrev net : Net
net = record { splits = λ t. false; is_addr = λ t. true; join_port = λ a p. a }

abbrev libraries : Libraries
libraries = record {
  parse_url = λ t. err (message []);
  parse_ip = λ t. none;
  new_multiaddr = λ t. ok t;
  hashed_id = λ t. ok t;
  p2p_addr = p2p_addr;
  delegated_router = λ t. ok t;
  net = net;
}

abbrev peers : List AddrInfo
peers =
    record { id = codes "a"; addrs = codes "1" ∷ codes "3" ∷ [] }
    ∷ record { id = codes "b"; addrs = codes "1" ∷ [] }
    ∷ []

abbrev path : Text
path = codes "/d/peers"

letters-IsWord :
    (c i : ℕ) → is_space c ≡ false → is_space i ≡ false → IsWord (named (c ∷ []) (i ∷ []))
letters-IsWord c i h g = ((λ e. cc), (h, (refl, (refl, (refl, (refl, (refl, (g, tt))))))))

read-write_example :
    read_peer_snapshot libraries path
      (record { age = ok (pos (3600 * second)); content = ok (snapshot_text peers) })
    ≡ peers
unfolding text_eq
read-write_example =
    read-write libraries path (pos (3600 * second)) peers (λ e. cc) refl
      ((λ e. cc), (refl, tt), ((λ e. cc), tt, tt)) ((refl, (refl, tt)), ((refl, tt), tt))
      (
        (letters-IsWord _ _ refl refl, (letters-IsWord _ _ refl refl, tt)),
        ((letters-IsWord _ _ refl refl, tt), tt),
      )

-- The rename fails, and the partial file is removed.
abbrev failing : Writing
failing = record {
  partial = ok (codes "/d/.peers-1");
  written = 0;
  write = none;
  close = none;
  rename = some (message (codes "no space"));
}

abbrev disk : Dict Text
disk = (path, codes "old") ∷ []

write_peer_snapshot-OldOrNew_example :
    All (OldOrNew path (snapshot_text peers) disk) (write_peer_snapshot failing path peers disk).0
unfolding text_eq
write_peer_snapshot-OldOrNew_example = write_peer_snapshot-OldOrNew failing path peers disk refl
