-- ===== src/Ffi/Tests.antt =====
-- ffi/ffi.go and utils/convert.go: a list of two entries and a configuration, and the theorems at
-- them.
use ipfs_mobile.Prelude.{◌*◌, ◌≡◌, refl, true, false, none, [], ◌∷◌}
use Prim.Native.Nat.{min}
use ipfs_mobile.Prelude.Text.{Text, codes, text_eq}
use ipfs_mobile.Prelude.Dict.{lookup, insert}
use ipfs_mobile.Prelude.Int.{pos, negsuc, pos_part}
use ipfs_mobile.Storage.{max_i64}
use ipfs_mobile.Errors.{ok, err, message}
use ipfs_mobile.FilePath.{has_prefix}
use ipfs_mobile.Durations.{second, millisecond, milliseconds, times_i64, or_default, is_positive}
use ipfs_mobile.Resolver.{Net, new_resolver}
use ipfs_mobile.Setup.{
  Libraries, NewClient, parse_all, in_order, parse_peers, parse_gateways, check_identity_seed,
  new_client,
}
use ipfs_mobile.Ffi.{
  ClientConfig, trim_space, trim_left, trim_right, trimmed_entries, get_string_slice, split_at,
  split_from, identity_seed, new_ffi_client,
}
use ipfs_mobile.Ffi.Slices.{joined, IsEntry, get_string_slice-joined}
use ipfs_mobile.Ffi.Clients.{new_ffi_client-positive}

abbrev double : Text
double = codes ";;"

spaced-IsEntry : IsEntry double (codes "a;b")
unfolding trim_space trim_left trim_right text_eq has_prefix
spaced-IsEntry = record { nonempty = λ e. cc; clear = (refl, (refl, (refl, tt))); trimmed = refl }

get_string_slice-joined_example :
    get_string_slice (joined double (codes "a;b" ∷ codes "a;b" ∷ [])) (double ∷ [])
    ≡ codes "a;b" ∷ codes "a;b" ∷ []
get_string_slice-joined_example =
    get_string_slice-joined (double ∷ []) (codes "a;b" ∷ codes "a;b" ∷ [])
      (spaced-IsEntry, (spaced-IsEntry, tt))

-- A delimiter that begins inside an entry is found there.
overlapping : get_string_slice (codes "a;;;b") (double ∷ []) ≡ codes "a" ∷ codes ";b" ∷ []
unfolding get_string_slice split_at split_from has_prefix trimmed_entries trim_space trim_left
    trim_right text_eq
overlapping = refl

abbrev net : Net
net = record { splits = λ t. false; is_addr = λ t. true; join_port = λ a p. a }

abbrev libraries : Libraries
libraries = record {
  parse_url = λ t. err (message []);
  parse_ip = λ t. none;
  new_multiaddr = λ t. ok t;
  hashed_id = λ t. ok t;
  p2p_addr = λ t. ok (record { id = t; addrs = [] });
  delegated_router = λ t. ok t;
  net = net;
}

abbrev config : ClientConfig
config = record {
  bootstrap_peers = codes " a ;;b";
  port = pos 0;
  gateways = [];
  dns_servers = [];
  disable_dht = true;
  identity_seed_hex = [];
  peer_snapshot_path = [];
  delegated_routing = [];
  idle_timeout = pos 60_000;
  allow_unverified = false;
  primary_timeout = negsuc 0;
  fallback_step_timeout = pos 5_000;
}

abbrev made : NewClient
made = record {
  config = record {
    port = pos 0;
    peers = record { id = codes "a"; addrs = [] } ∷ record { id = codes "b"; addrs = [] } ∷ [];
    disable_dht = true;
    identity_seed = [];
    snapshot_path = [];
    gateways = [];
    gateway_hosts = [];
    delegated = none;
    resolver = none;
  };
  idle = pos (60 * second);
  gateways = [];
  allow_unverified = false;
  primary_timeout = pos (15 * second);
  fallback_step_timeout = pos (5 * second);
}

made_of_config : new_ffi_client libraries config ≡ ok made
unfolding new_ffi_client new_client parse_peers parse_gateways check_identity_seed parse_all
    in_order lookup insert text_eq new_resolver or_default get_string_slice trimmed_entries
    trim_space trim_left trim_right split_at split_from has_prefix identity_seed milliseconds
    times_i64
made_of_config = refl

new_ffi_client-positive_example :
    (is_positive made.primary_timeout ≡ true)
    × (is_positive made.fallback_step_timeout ≡ true)
    × (made.idle ≡ pos (min (pos_part (pos 60_000) * millisecond) max_i64))
new_ffi_client-positive_example = new_ffi_client-positive libraries config made made_of_config
