-- ===== src/Fetching.antt =====
-- client/client.go and client/fallback.go: Client.Get with the files and the registry of staging
-- directories, from `download` of the primary phase to the archives of the fallback. What the
-- network, the clock, the contexts, Close and other downloads do comes with the call.
use ipfs_mobile.Prelude.{ℕ, Bool, true, false, not, Option, none, some, List, [], ◌∷◌}
use ipfs_mobile.Prelude.Tests.{◌==◌, if◌then◌else◌}
use ipfs_mobile.Prelude.Text.{Text, codes}
use ipfs_mobile.Prelude.Int.{ℤ}
use ipfs_mobile.Errors.{
  Error, ContextErr, Wakeup, finished, expired, closed, message, wrapped, is_closed_err,
  as_size_limit, is_some, context_error, await_download,
}
use ipfs_mobile.Durations.{Backoff, RetryAfter}
use ipfs_mobile.Fallback.{
  Cooldowns, Gateway, Pause, Fetched, ends, asking, verdict, paused, asks_for_pause,
  start_gateway_cooldown, gateway_cooling_down,
}
use ipfs_mobile.Scratch.{Host}
use ipfs_mobile.Archives.{Arrival, receive}
use ipfs_mobile.Download.{Session, download}
use ipfs_mobile.Retrieval.{Settings, fallback_available, combined}
pub mod Above
pub mod Aside
pub mod Delivered
pub mod Tests

-- What a request comes to: an error before there is a response, or a response of a host.
pub data Reply : Type 0 where
  no_reply : Error → Reply
  reply : Text → ℕ → RetryAfter → Arrival → Reply

-- One round of the loop over the gateways, as `Round` has it.
pub record Visit : Type 0 where
  pub meanwhile : List Pause
  pub gateway : Gateway
  pub closed_before : Bool
  pub now : ℕ
  pub reply : Reply
  pub closed_after : Bool
  pub context_after : Option ContextErr

-- What a call of `fetchFromGateway` leaves: the files with the registry, the cooldowns, and the
-- error.
abbrev pub fetch_on :
    Backoff → ℤ → Text → Cooldowns → ℕ → Reply → Host → Host × Cooldowns × Option Error
fetch_on b limit output cs now (no_reply e) h = (h, cs, some e)
fetch_on b limit output cs now (reply host status retry a) h =
    if not (status == 200)
    then (
      h,
      if asks_for_pause status then start_gateway_cooldown b cs now host retry else cs,
      some (message (codes "http status")),
    )
    else (let r = receive a limit output h in (r.0, cs, r.1))

-- After a failed attempt: stop with an error, or go on with the rest.
abbrev pub after_verdict : Host → Cooldowns → Host × Fetched → Option Error → Host × Fetched
after_verdict h cs rest (some f) = (h, ends cs (some f))
after_verdict h cs rest none = rest

abbrev pub after_fetch : Visit → Host × Cooldowns × Option Error → Host × Fetched → Host × Fetched
after_fetch v (h, cs, none) rest = (h, ends cs none)
after_fetch v (h, cs, some e) rest =
    after_verdict h cs rest (verdict v.closed_after v.context_after e)

abbrev pub asking_on : Gateway → Host × Fetched → Host × Fetched
asking_on g (h, f) = (h, asking g f)

-- One round, given whether the client is closed and whether the gateway is cooling down: the loop
-- goes on with `skipped` without a request, and with `further` after one.
abbrev pub visiting :
    Visit
    → Cooldowns
    → Host
    → Host × Cooldowns × Option Error
    → Host × Fetched
    → Host × Fetched
    → Bool
    → Option ℕ
    → Host × Fetched
visiting v cs h made skipped further true cooling = (h, ends cs (some closed))
visiting v cs h made skipped further false (some deadline) = skipped
visiting v cs h made skipped further false none = asking_on v.gateway (after_fetch v made further)

-- The loop of `fetchFromGateways`.
unfoldable pub visits_on : Backoff → ℤ → Text → Cooldowns → Host → List Visit → Host × Fetched
unfolding gateway_cooling_down paused
visits_on b limit output cs h [] =
    (h, ends cs (some (message (codes "no gateway served the content"))))
visits_on b limit output cs h (v ∷ vs) =
    let shared = paused b cs v.meanwhile in
    let made = fetch_on b limit output shared v.now v.reply h in
    let skipped = visits_on b limit output shared h vs in
    let further = visits_on b limit output made.1 made.0 vs in
    visiting v shared h made skipped further v.closed_before
      (gateway_cooling_down shared v.now v.gateway)

-- The goroutine of `getPrimary`: `acquire` fails, or the node downloads.
pub data Work : Type 0 where
  not_acquired : Error → Work
  downloading : Session → Work

-- Which case the `select` of `awaitDownload` takes, and, where the context has ended and the
-- goroutine has not, the files and the registry as the fallback finds them.
pub data Waiting : Type 0 where
  in_time : Option ContextErr → Waiting
  late : ContextErr → Waiting
  abandoned : ContextErr → Host → Waiting

abbrev pub work_on : Work → ℤ → Text → Host → Host × Option Error
work_on (not_acquired e) limit output h = (h, some e)
work_on (downloading s) limit output h = download s limit output h

abbrev pub wait_for : Waiting → Host × Option Error → Host × Wakeup
wait_for (in_time c) (h, e) = (h, finished e c)
wait_for (late c) (h, e) = (h, expired c (some e))
wait_for (abandoned c h') r = (h', expired c none)

-- A call of Get, as `Call` has it.
pub record Trip : Type 0 where
  pub parse : Option Error
  pub work : Work
  pub waiting : Waiting
  pub context_after : Option ContextErr
  pub closed_after : Bool
  pub visits : List Visit

abbrev pub fall_back_on : Settings → ℤ → Text → Cooldowns → Trip → Host → Error → Host × Fetched
fall_back_on c limit output cs t h e =
    if not (fallback_available c)
    then (h, ends cs (some e))
    else if t.closed_after
    then (h, ends cs (some closed))
    else (let r = visits_on c.backoff limit output cs h t.visits in
        (r.0, record (r.1) { failure = combined e (r.1).failure }))

abbrev pub unless_over :
    Settings → ℤ → Text → Cooldowns → Trip → Host → Error → Option ContextErr → Host × Fetched
unless_over c limit output cs t h e (some ended) = (h, ends cs (some (context_error ended)))
unless_over c limit output cs t h e none = fall_back_on c limit output cs t h e

abbrev pub after_wait :
    Settings → ℤ → Text → Cooldowns → Trip → Host → Option Error → Host × Fetched
after_wait c limit output cs t h none = (h, ends cs none)
after_wait c limit output cs t h (some e) =
    if is_closed_err e
    then (h, ends cs (some e))
    else if is_some (as_size_limit e)
    then (h, ends cs (some e))
    else unless_over c limit output cs t h e t.context_after

abbrev pub unless_invalid :
    Settings → ℤ → Text → Cooldowns → Trip → Host → Option Error → Host × Fetched
unless_invalid c limit output cs t h (some e) =
    (h, ends cs (some (wrapped (codes "invalid cid") e)))
unless_invalid c limit output cs t h none =
    let w = wait_for t.waiting (work_on t.work limit output h) in
    after_wait c limit output cs t w.0 (await_download w.1)

-- `Get`.
unfoldable pub get_on : Settings → ℤ → Text → Cooldowns → Trip → Host → Host × Fetched
unfolding fallback_available
get_on c limit output cs t h = unless_invalid c limit output cs t h t.parse
