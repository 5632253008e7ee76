-- ===== src/Ffi.antt =====
-- ffi/ffi.go and utils/convert.go: what the Kotlin wrapper calls. Lists arrive as one text, durations
-- as milliseconds and the identity seed as hex. Texts are ASCII.
use ipfs_mobile.Prelude.{
  ℕ, zero, suc, ◌+◌, ◌-◌, ◌*◌, ◌/◌, ◌%◌, Bool, true, false, not, ◌&&◌, ◌||◌, Option, none, some,
  List, [], ◌∷◌, ◌++◌,
}
use ipfs_mobile.Prelude.Tests.{ltb, leb, ◌==◌, if◌then◌else◌}
use ipfs_mobile.Prelude.Text.{Text, text_eq, codes}
use ipfs_mobile.Prelude.Int.{ℤ, pos}
use ipfs_mobile.Errors.{Error, Result, ok, err, message, wrapped}
use ipfs_mobile.FilePath.{has_prefix, push_head}
use ipfs_mobile.Prelude.Lists.{length}
use ipfs_mobile.Durations.{milliseconds, with_timeout}
use ipfs_mobile.Setup.{Libraries, Config, NewClient, new_client}
use ipfs_mobile.Snapshots.{is_space}
pub mod Slices
pub mod Seeds
pub mod Clients
pub mod Tests

-- `strings.TrimSpace`.
unfoldable pub trim_left : Text → Text
trim_left [] = []
trim_left (c ∷ s) = let rest = trim_left s in if is_space c then rest else c ∷ s

unfoldable pub trim_right : Text → Text
trim_right [] = []
trim_right (c ∷ s) =
    let rest = trim_right s in if is_space c && text_eq rest [] then [] else c ∷ rest

unfoldable pub trim_space : Text → Text
unfolding trim_left trim_right
trim_space s = trim_right (trim_left s)

-- The loop of `GetStringSlice`.
abbrev pub unless_empty : Text → List Text → List Text
unless_empty [] rest = rest
unless_empty (c ∷ s) rest = (c ∷ s) ∷ rest

unfoldable pub trimmed_entries : List Text → List Text
unfolding trim_space
trimmed_entries [] = []
trimmed_entries (e ∷ es) = unless_empty (trim_space e) (trimmed_entries es)

-- `strings.Split` at a separator that is not empty, with so many bytes of a separator to skip.
unfoldable pub split_from : Text → ℕ → Text → List Text
unfolding has_prefix
split_from sep skipped [] = [] ∷ []
split_from sep (suc n) (c ∷ s) = split_from sep n s
split_from sep zero (c ∷ s) =
    let found = has_prefix (c ∷ s) sep in
    let rest = split_from sep (if found then length sep - 1 else 0) s in
    if found then [] ∷ rest else push_head c rest

-- `strings.Split` at an empty separator.
abbrev pub explode : Text → List Text
explode [] = []
explode (c ∷ s) = (c ∷ []) ∷ explode s

-- `strings.Split`.
unfoldable pub split_at : Text → Text → List Text
unfolding split_from
split_at [] s = explode s
split_at (d ∷ sep) s = split_from (d ∷ sep) 0 s

abbrev pub delimiter_of : List Text → Text
delimiter_of [] = codes ";"
delimiter_of (d ∷ args) = d

-- `GetStringSlice`.
unfoldable pub get_string_slice : Text → List Text → List Text
unfolding trimmed_entries split_at
get_string_slice concatenated args = trimmed_entries (split_at (delimiter_of args) concatenated)

-- The value of a hex digit.
unfoldable pub from_hex : ℕ → Option ℕ
from_hex c =
    if leb b'0' c && leb c b'9'
    then some (c - b'0')
    else if leb b'a' c && leb c b'f'
    then some (c - b'a' + 10)
    else if leb b'A' c && leb c b'F'
    then some (c - b'A' + 10)
    else none

abbrev pub hex_error : Error
hex_error = message (codes "invalid hex")

abbrev pub byte_of : Option ℕ → Option ℕ → Result (List ℕ) → Result (List ℕ)
byte_of (some h) (some l) (ok bytes) = ok ((h * 16 + l) ∷ bytes)
byte_of _ _ _ = err hex_error

-- `hex.DecodeString`.
unfoldable pub decode_string : Text → Result (List ℕ)
unfolding from_hex
decode_string [] = ok []
decode_string (c ∷ []) = err hex_error
decode_string (c ∷ d ∷ s) = byte_of (from_hex c) (from_hex d) (decode_string s)

abbrev pub seed_of : Result (List ℕ) → Result (List ℕ)
seed_of (err e) = err (wrapped (codes "identity seed is not hex") e)
seed_of (ok bytes) = ok bytes

-- `identitySeed`.
unfoldable pub identity_seed : Text → Result (List ℕ)
unfolding decode_string
identity_seed hex_seed = if text_eq hex_seed [] then ok [] else seed_of (decode_string hex_seed)

-- `ClientConfig`.
pub record ClientConfig : Type 0 where
  pub bootstrap_peers : Text
  pub port : ℤ
  pub gateways : Text
  pub dns_servers : Text
  pub disable_dht : Bool
  pub identity_seed_hex : Text
  pub peer_snapshot_path : Text
  pub delegated_routing : Text
  pub idle_timeout : ℤ
  pub allow_unverified : Bool
  pub primary_timeout : ℤ
  pub fallback_step_timeout : ℤ

abbrev pub inner_config : ClientConfig → List ℕ → Config
inner_config c seed = record {
  bootstrap_peers = get_string_slice c.bootstrap_peers [];
  port = c.port;
  idle_timeout = milliseconds c.idle_timeout;
  disable_dht = c.disable_dht;
  identity_seed = seed;
  peer_snapshot_path = c.peer_snapshot_path;
  delegated_routing_endpoint = c.delegated_routing;
  dns_servers = get_string_slice c.dns_servers [];
  gateways = get_string_slice c.gateways [];
  primary_timeout = milliseconds c.primary_timeout;
  fallback_step_timeout = milliseconds c.fallback_step_timeout;
  allow_unverified = c.allow_unverified;
}

abbrev pub with_seed : Libraries → ClientConfig → Result (List ℕ) → Result NewClient
with_seed l c (err e) = err e
with_seed l c (ok seed) = new_client l (inner_config c seed)

-- `NewClient`.
unfoldable pub new_ffi_client : Libraries → ClientConfig → Result NewClient
unfolding identity_seed get_string_slice
new_ffi_client l c = with_seed l c (identity_seed c.identity_seed_hex)

-- `Config` of a single `Get`.
pub record OneShot : Type 0 where
  pub bootstrap_peers : Text
  pub port : ℤ
  pub size_limit : ℤ
  pub timeout : ℤ
  pub disable_dht : Bool
  pub delegated_routing : Text
  pub gateways : Text
  pub dns_servers : Text
  pub allow_unverified : Bool
  pub primary_timeout : ℤ
  pub fallback_step_timeout : ℤ

-- `Config.clientConfig`.
unfoldable pub client_config : OneShot → ClientConfig
client_config c = record {
  bootstrap_peers = c.bootstrap_peers;
  port = c.port;
  gateways = c.gateways;
  dns_servers = c.dns_servers;
  disable_dht = c.disable_dht;
  identity_seed_hex = [];
  peer_snapshot_path = [];
  delegated_routing = c.delegated_routing;
  idle_timeout = pos 0;
  allow_unverified = c.allow_unverified;
  primary_timeout = c.primary_timeout;
  fallback_step_timeout = c.fallback_step_timeout;
}

-- `Get` of the package: what it returns, and the clients that it has closed. `download` is `Get` of
-- the client, with the deadline, if any, and the size limit.
abbrev pub with_client :
    OneShot
    → (NewClient → Option ℤ → ℤ → Option Error)
    → Result NewClient
    → Option Error × List NewClient
with_client c download (err e) = (some e, [])
with_client c download (ok n) = (download n (with_timeout c.timeout) c.size_limit, n ∷ [])

unfoldable pub get_once :
    Libraries → OneShot → (NewClient → Option ℤ → ℤ → Option Error) → Option Error × List NewClient
unfolding new_ffi_client client_config
get_once l c download = with_client c download (new_ffi_client l (client_config c))
