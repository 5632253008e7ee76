-- ===== src/Fallback/Tests.antt =====
-- client/fallback.go: two gateways, one of them cooling down, and the theorems at them.
use ipfs_mobile.Prelude.{ℕ, ◌*◌, ◌≡◌, ◌≢◌, refl, false, inl, inr, none, some, List, [], ◌∷◌, arith}
use ipfs_mobile.Prelude.Lists.{All}
use ipfs_mobile.Prelude.Text.{Text, codes, text_eq}
use ipfs_mobile.Prelude.Dict.{lookup, insert}
use ipfs_mobile.Prelude.Int.{pos}
use ipfs_mobile.Errors.{ok}
use ipfs_mobile.FilePath.{clean, join, has_prefix}
use ipfs_mobile.Durations.{Backoff, second, unusable, retry_after_delay}
use ipfs_mobile.Tar.{Header, type_dir, type_reg, extract_tar}
use ipfs_mobile.Fallback.{
  Cooldowns, Response, response, Round, paused, fetch_from_gateway, fetch_rounds,
}
use ipfs_mobile.Fallback.Cooldowns.{Early, fetch_rounds-cooling}

abbrev backoff : Backoff
backoff = record { connect_failure = 60 * second; longest = 600 * second }

abbrev archive : List Header
archive =
    record { name = codes "cid/"; flag = type_dir; body = record { bytes = []; failure = none } }
    ∷ record {
      name = codes "cid/a";
      flag = type_reg;
      body = record { bytes = codes "hello"; failure = none };
    }
    ∷ []

abbrev answer : ℕ → Response
answer status = record {
  status = status;
  retry_after = unusable;
  content_type = codes "application/x-tar";
  scratch = ok (codes "/d/.s");
  files = record { entries = []; refuses = λ p. none };
  archive = archive;
  ending = none;
  replaced = none;
}

abbrev round_of : Text → ℕ → Round
round_of host status = record {
  meanwhile =
      record { paused_host = codes "other"; asked_at = 4; header = unusable }
      ∷ record { paused_host = codes "busy"; asked_at = 4; header = unusable }
      ∷ [];
  gateway = record { url = host; host = some host };
  closed_before = false;
  now = 5;
  exchange = response host (answer status);
  closed_after = false;
  context_after = none;
}

abbrev rounds : List Round
rounds =
    round_of (codes "busy") 200 ∷ round_of (codes "slow") 503 ∷ round_of (codes "good") 200 ∷ []

abbrev cooling : Cooldowns
cooling = insert (codes "busy") 10 []

busy : lookup (codes "busy") cooling ≡ some 10
unfolding lookup insert text_eq
busy = refl

early : (host : Text) (status : ℕ) → Early backoff (pos 9) (codes "busy") 10 (round_of host status)
unfolding text_eq retry_after_delay
early host status = ((inl refl, (inr (omega arith), tt)), omega arith, refl)

fetch_rounds-cooling_example :
    All (λ g. g.host ≢ some (codes "busy")) (fetch_rounds backoff (pos 9) cooling rounds).asked
fetch_rounds-cooling_example =
    fetch_rounds-cooling backoff (pos 9) (codes "busy") 10 cooling rounds (10, busy, omega arith)
      (early (codes "busy") 200, (early (codes "slow") 503, (early (codes "good") 200, tt)))

served : (fetch_rounds backoff (pos 9) cooling rounds).failure ≡ none
unfolding fetch_rounds paused fetch_from_gateway extract_tar clean join text_eq has_prefix lookup
    insert retry_after_delay
served = refl
