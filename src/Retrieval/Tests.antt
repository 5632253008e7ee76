-- ===== src/Retrieval/Tests.antt =====
-- client/client.go: calls of Get, and the theorems at them.
use ipfs_mobile.Prelude.{◌*◌, ◌≡◌, refl, true, false, none, some, [], ◌∷◌}
use ipfs_mobile.Prelude.Text.{codes}
use ipfs_mobile.Prelude.Int.{pos}
use ipfs_mobile.Errors.{
  Wakeup, finished, size_limit, await_download, conclusive, as_size_limit, is_closed_err,
}
use ipfs_mobile.Durations.{second}
use ipfs_mobile.Retrieval.{Settings, Call, fallback_available, get}
use ipfs_mobile.Retrieval.Phases.{Delivered, get-Delivered}

abbrev settings : Settings
settings = record {
  gateways = record { url = codes "https://g"; host = some (codes "g") } ∷ [];
  allow_unverified = false;
  primary_timeout = pos (15 * second);
  backoff = record { connect_failure = 60 * second; longest = 600 * second };
}

abbrev call_of : Wakeup → Call
call_of w = record {
  parse = none;
  primary = w;
  context_after = none;
  closed_after = false;
  rounds = [];
}

fetched : (get settings (pos 0) [] (call_of (finished none none))).failure ≡ none
unfolding get await_download
fetched = refl

get-Delivered_example : Delivered settings (pos 0) (call_of (finished none none))
get-Delivered_example = get-Delivered settings (pos 0) [] (call_of (finished none none)) fetched

closed_off : fallback_available settings ≡ false
unfolding fallback_available
closed_off = refl

too_big :
    await_download (finished (some (size_limit (record { size = pos 9; limit = pos 8 }))) none)
    ≡ some (size_limit (record { size = pos 9; limit = pos 8 }))
unfolding await_download
too_big = refl

final : conclusive (size_limit (record { size = pos 9; limit = pos 8 })) ≡ true
unfolding conclusive as_size_limit is_closed_err
final = refl

abbrev willing : Settings
willing = record settings { allow_unverified = true }

allowed : fallback_available willing ≡ true
unfolding fallback_available
allowed = refl
