-- ===== src/Fallback.antt =====
-- client/fallback.go: the cooldowns of gateway hosts, one attempt at a gateway, and the loop over
-- the gateways. What the network and the clock do, whether the client has been closed, and which
-- cooldowns other downloads start meanwhile, comes with each attempt.
use ipfs_mobile.Prelude.{
  ℕ, ◌+◌, Bool, true, false, ◌&&◌, ◌||◌, not, Option, none, some, List, [], ◌∷◌,
}
use ipfs_mobile.Prelude.Tests.{ltb, ◌==◌, if◌then◌else◌}
use ipfs_mobile.Prelude.Text.{Text, text_eq, codes}
use ipfs_mobile.Prelude.Dict.{Dict, lookup, insert}
use ipfs_mobile.Prelude.Int.{ℤ, pos_part}
use ipfs_mobile.Errors.{
  Error, Result, ok, err, ContextErr, SizeLimit, closed, message, size_limit, context_error,
}
use ipfs_mobile.Durations.{Backoff, RetryAfter, retry_after_delay}
use ipfs_mobile.FilePath.{has_prefix}
use ipfs_mobile.Storage.{Files}
use ipfs_mobile.Tar.{Header, Extracted, extract_tar}
pub mod Cooldowns
pub mod Attempts
pub mod Tests

-- `gatewayCooldowns.deadline`, in nanoseconds since some start.
abbrev pub Cooldowns : Type 0
Cooldowns = Dict ℕ

-- A configured gateway with the host that `url.Parse` finds in it, if it parses.
pub record Gateway : Type 0 where
  pub url : Text
  pub host : Option Text

abbrev pub live_deadline : ℕ → Option ℕ → Option ℕ
live_deadline now none = none
live_deadline now (some deadline) = if not (ltb now deadline) then none else some deadline

abbrev pub cooling_host : Cooldowns → ℕ → Option Text → Option ℕ
cooling_host cs now none = none
cooling_host cs now (some h) = live_deadline now (lookup h cs)

-- `gatewayCoolingDown`.
unfoldable pub gateway_cooling_down : Cooldowns → ℕ → Gateway → Option ℕ
gateway_cooling_down cs now g = cooling_host cs now g.host

-- `startGatewayCooldown`. A delay is never negative.
unfoldable pub start_gateway_cooldown : Backoff → Cooldowns → ℕ → Text → RetryAfter → Cooldowns
start_gateway_cooldown b cs now host header =
    insert host (now + pos_part (retry_after_delay b header)) cs

-- A response: its headers, the archive in its body and how that ends, the staging directory that
-- `claimScratch` makes for it on a file system, and what `replace` returns after the archive is
-- unpacked.
pub record Response : Type 0 where
  pub status : ℕ
  pub retry_after : RetryAfter
  pub content_type : Text
  pub scratch : Result Text
  pub files : Files
  pub archive : List Header
  pub ending : Option Error
  pub replaced : Option Error

-- What a request comes to: an error before there is a response, or a response of a host.
pub data Exchange : Type 0 where
  no_response : Error → Exchange
  response : Text → Response → Exchange

unfoldable pub asks_for_pause : ℕ → Bool
asks_for_pause status = (status == 429) || ((status == 502) || ((status == 503) || (status == 504)))

abbrev pub tar_type : Text
tar_type = codes "application/x-tar"

abbrev pub unpacked : ℤ → Response → Result Text → Option Error
unpacked limit r (err e) = some e
unpacked limit r (ok dir) = elim ((extract_tar dir limit r.files r.archive r.ending).failure) [
  | some e ↦ some e
  | none ↦ r.replaced
]

abbrev pub received : ℤ → Response → Option Error
received limit r =
    if not (text_eq r.content_type []) && not (has_prefix r.content_type tar_type)
    then some (message (codes "gateway served another type"))
    else unpacked limit r r.scratch

-- `fetchFromGateway`, with the cooldowns that it leaves.
unfoldable pub fetch_from_gateway :
    Backoff → ℤ → Cooldowns → ℕ → Exchange → Cooldowns × Option Error
unfolding asks_for_pause start_gateway_cooldown
fetch_from_gateway b limit cs now (no_response e) = (cs, some e)
fetch_from_gateway b limit cs now (response host r) =
    if not (r.status == 200)
    then (
      if asks_for_pause r.status then start_gateway_cooldown b cs now host r.retry_after else cs,
      some (message (codes "http status")),
    )
    else (cs, received limit r)

-- A call of `startGatewayCooldown` by another download.
pub record Pause : Type 0 where
  pub paused_host : Text
  pub asked_at : ℕ
  pub header : RetryAfter

unfoldable pub paused : Backoff → Cooldowns → List Pause → Cooldowns
unfolding start_gateway_cooldown
paused b cs [] = cs
paused b cs (p ∷ ps) = paused b (start_gateway_cooldown b cs p.asked_at p.paused_host p.header) ps

-- One round of the loop: what other downloads have started since the round before; what `isClosed` and the clock say before the attempt, what the request
-- comes to, and what `isClosed` and the context say after it.
pub record Round : Type 0 where
  pub meanwhile : List Pause
  pub gateway : Gateway
  pub closed_before : Bool
  pub now : ℕ
  pub exchange : Exchange
  pub closed_after : Bool
  pub context_after : Option ContextErr

-- What the loop leaves: the cooldowns, the gateways that were sent a request, the first one first,
-- and the error that is returned.
pub record Fetched : Type 0 where
  pub cooldowns : Cooldowns
  pub asked : List Gateway
  pub failure : Option Error

abbrev pub ends : Cooldowns → Option Error → Fetched
ends cs e = record { cooldowns = cs; asked = []; failure = e }

-- What the loop does after a failed attempt: `none` is to go on.
abbrev pub verdict : Bool → Option ContextErr → Error → Option Error
verdict closed_after context_after e = if closed_after then some closed else elim e [
  | size_limit s ↦ some (size_limit s)
  | _ ↦ elim context_after [ none ↦ none | some c ↦ some (context_error c) ]
]

abbrev pub after_attempt : Round → Cooldowns × Option Error → Fetched → Fetched
after_attempt r (cs, none) rest = ends cs none
after_attempt r (cs, some e) rest = elim (verdict r.closed_after r.context_after e) [
  | some f ↦ ends cs (some f)
  | none ↦ rest
]

abbrev pub asking : Gateway → Fetched → Fetched
asking g f = record f { asked = g ∷ f.asked }

-- The loop of `fetchFromGateways`.
unfoldable pub fetch_rounds : Backoff → ℤ → Cooldowns → List Round → Fetched
unfolding gateway_cooling_down paused
fetch_rounds b limit cs [] = ends cs (some (message (codes "no gateway served the content")))
fetch_rounds b limit cs (r ∷ rs) =
    let shared = paused b cs r.meanwhile in
    let attempt = fetch_from_gateway b limit shared r.now r.exchange in
    let skipped = fetch_rounds b limit shared rs in
    let further = fetch_rounds b limit attempt.0 rs in
    if r.closed_before
    then ends shared (some closed)
    else elim (gateway_cooling_down shared r.now r.gateway) [
      | some deadline ↦ skipped
      | none ↦ asking r.gateway (after_attempt r attempt further)
    ]

-- `fetchFromGateways`.
unfoldable pub fetch_from_gateways : Backoff → ℤ → Cooldowns → List Round → Fetched
unfolding fetch_rounds
fetch_from_gateways b limit cs [] = ends cs (some (message (codes "no gateways configured")))
fetch_from_gateways b limit cs (r ∷ rs) = fetch_rounds b limit cs (r ∷ rs)
