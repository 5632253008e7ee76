-- ===== src/Fetching/Tests.antt =====
-- client/client.go: a call of Get that falls back, and the theorems at it.
use ipfs_mobile.Prelude.{◌*◌, ◌≡◌, refl, true, false, none, some, inr, arith, [], ◌∷◌}
use ipfs_mobile.Prelude.Text.{codes, text_eq}
use ipfs_mobile.Prelude.Dict.{lookup}
use ipfs_mobile.Prelude.Int.{pos}
use ipfs_mobile.Errors.{message, ok, await_download, conclusive, as_size_limit, is_closed_err}
use ipfs_mobile.Durations.{second, unusable}
use ipfs_mobile.FilePath.{clean, has_prefix}
use ipfs_mobile.Storage.{folder, file}
use ipfs_mobile.Dag.{Node, regular, directory, end, item, valid_entry_name}
use ipfs_mobile.Dag.Shape.{is_plain, size}
use ipfs_mobile.Dag.Content.{is_distinct, named_in}
use ipfs_mobile.Tar.{ancestors}
use ipfs_mobile.Fallback.{paused, gateway_cooling_down}
use ipfs_mobile.Staging.{ends_slash, strip}
use ipfs_mobile.Replacement.{Replacing}
use ipfs_mobile.Scratch.{Host}
use ipfs_mobile.Scratch.Filled.{Delivered}
use ipfs_mobile.Archives.{Arrival}
use ipfs_mobile.Archives.Listed.{archive_of}
use ipfs_mobile.Archives.Delivered.{Faithful}
use ipfs_mobile.Retrieval.{Settings, fallback_available}
use ipfs_mobile.Fetching.{Visit, reply, not_acquired, in_time, Trip, get_on}
use ipfs_mobile.Fetching.Aside.{get_on_aside}
use ipfs_mobile.Fetching.Delivered.{ended, FirstServes, ComesToFallback, get_on-Delivered}

abbrev settings : Settings
settings = record {
  gateways = record { url = codes "https://g"; host = some (codes "g") } ∷ [];
  allow_unverified = true;
  primary_timeout = pos (15 * second);
  backoff = record { connect_failure = 60 * second; longest = 600 * second };
}

abbrev replacing : Replacing
replacing = record {
  context = none;
  first = none;
  lock = none;
  second = none;
  removal = none;
  survives = λ p. false;
  third = none;
}

abbrev tree : Node
tree = directory (
    item (codes "a") (regular (record { bytes = codes "hi"; failure = none }))
      (item (codes "b") (directory (end none)) (end none)))

abbrev arrival : Arrival
arrival = record {
  content_type = codes "application/x-tar";
  archive = archive_of (codes "cid") tree;
  ending = none;
  listing = [];
  scratch_name = ok (codes ".g");
  replacing = replacing;
}

abbrev served_visit : Visit
served_visit = record {
  meanwhile = [];
  gateway = record { url = codes "https://g"; host = some (codes "g") };
  closed_before = false;
  now = 7;
  reply = reply (codes "g") 200 unusable arrival;
  closed_after = false;
  context_after = none;
}

abbrev trip : Trip
trip = record {
  parse = none;
  work = not_acquired (message (codes "no peers"));
  waiting = in_time none;
  context_after = none;
  closed_after = false;
  visits = served_visit ∷ [];
}

abbrev host : Host
host = record {
  files = record {
    entries = (codes "/d", folder) ∷ (codes "/d/o", file (codes "old")) ∷ [];
    refuses = λ p. none;
  };
  staging = [];
  stays = λ p. false;
}

get_on_aside_example :
    lookup
      (codes "/etc/x")
      (((get_on settings (pos 5) (codes "/d/o") [] trip host).0).files).entries
    ≡ lookup (codes "/etc/x") (host.files).entries
unfolding clean text_eq ends_slash lookup strip ancestors
get_on_aside_example =
    get_on_aside (codes "/d") (codes "o") (codes "/etc/x")
      (record {
        below = record { is_clean = refl; not_root = λ e. cc; not_here = λ e. cc };
        slashless = refl;
        base_name = (record { nonempty = λ e. cc; not_dot = λ e. cc; flat = omega arith }, λ e. cc);
        elsewhere = refl;
      })
      (pos 5) settings [] trip
      (
        (
          ((record { nonempty = λ e. cc; not_dot = λ e. cc; flat = omega arith }, λ e. cc), refl),
          tt,
        ),
        tt,
      )
      host tt tt (refl, tt)

visit-Faithful :
    Faithful arrival (pos 5) (codes "/d") (codes "o") (codes ".g") (codes "cid") tree host
unfolding clean text_eq ends_slash size is_distinct named_in lookup is_plain valid_entry_name
    has_prefix ancestors
visit-Faithful = record {
  place = record {
    below = record { is_clean = refl; not_root = λ e. cc; not_here = λ e. cc };
    slashless = refl;
    base_name = (record { nonempty = λ e. cc; not_dot = λ e. cc; flat = omega arith }, λ e. cc);
    scratch_name = (record { nonempty = λ e. cc; not_dot = λ e. cc; flat = omega arith }, λ e. cc);
    different = refl;
    plain = refl;
    distinct = refl;
    room = inr (5, refl, omega arith, omega arith, omega arith);
    willing = λ p. refl;
    free = λ t tail. refl;
  };
  root_name = (record { nonempty = λ e. cc; not_dot = λ e. cc; flat = omega arith }, λ e. cc);
  typed = refl;
  listed = refl;
  ended = refl;
  names = tt;
  standing = (refl, tt);
  scratch_chosen = refl;
  context_alive = refl;
  renames = refl;
}

trip-ComesToFallback : ComesToFallback settings trip (some (message (codes "no peers")))
unfolding conclusive as_size_limit is_closed_err fallback_available
trip-ComesToFallback = record {
  failure = message (codes "no peers");
  parses = refl;
  failed = refl;
  inconclusive = refl;
  context_alive = refl;
  open_client = refl;
  available = refl;
}

visit-FirstServes :
    FirstServes settings
      (pos 5)
      []
      (codes "/d")
      (codes "o")
      (codes ".g")
      (codes "cid")
      tree
      trip
      host
unfolding paused gateway_cooling_down lookup
visit-FirstServes = record {
  first_visit = served_visit;
  others = [];
  host = codes "g";
  retry = unusable;
  arrival = arrival;
  visits = refl;
  open_client = refl;
  warm = refl;
  answered = refl;
  faithful = visit-Faithful;
}

get_on-Delivered_example :
    Delivered tree (codes "/d/o") (ended (get_on settings (pos 5) (codes "/d/o") [] trip host))
unfolding await_download
get_on-Delivered_example =
    get_on-Delivered settings (pos 5) [] (codes "/d") (codes "o") (codes ".g") (codes "cid") tree
      trip host (trip-ComesToFallback, visit-FirstServes)
