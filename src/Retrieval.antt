-- ===== src/Retrieval.antt =====
-- client/client.go: Get, from the primary phase to the fallback, with the deadline that leaves time
-- for the fallback.
use ipfs_mobile.Prelude.{Bool, true, false, ◌&&◌, not, Option, none, some, List, [], ◌∷◌}
use ipfs_mobile.Prelude.Tests.{if◌then◌else◌}
use ipfs_mobile.Prelude.Text.{codes}
use ipfs_mobile.Prelude.Int.{ℤ, pos, ltb_ℤ}
use ipfs_mobile.Errors.{
  Error, ContextErr, Wakeup, closed, wrapped, joined, is_closed_err, as_size_limit, is_some,
  context_error, await_download,
}
use ipfs_mobile.Durations.{Backoff, is_positive}
use ipfs_mobile.Fallback.{Cooldowns, Gateway, Round, Fetched, ends, fetch_from_gateways}
pub mod Phases
pub mod Deadline
pub mod Tests

-- The fields of `Client` that Get reads, apart from those of its node.
pub record Settings : Type 0 where
  pub gateways : List Gateway
  pub allow_unverified : Bool
  pub primary_timeout : ℤ
  pub backoff : Backoff

abbrev pub is_empty {ℓ} : {A : Type ℓ} → List A → Bool
is_empty [] = true
is_empty (x ∷ xs) = false

-- `fallbackAvailable`.
unfoldable pub fallback_available : Settings → Bool
fallback_available c = c.allow_unverified && not (is_empty c.gateways)

abbrev pub min_ℤ : ℤ → ℤ → ℤ
min_ℤ a b = if ltb_ℤ b a then b else a

abbrev pub shortened : (ℤ → ℤ) → ℤ → ℤ → ℤ
shortened share budget remaining =
    if is_positive remaining then min_ℤ budget (share remaining) else budget

-- `primaryDeadline`: the timeout that is put on the caller's context, if any, where the caller's
-- own deadline is so long from now. `share` is the product with primaryShare, in floating point.
unfoldable pub primary_deadline : (ℤ → ℤ) → Settings → Option ℤ → Option ℤ
unfolding fallback_available
primary_deadline share c deadline =
    if not (fallback_available c)
    then none
    else some (elim deadline [
      | none ↦ c.primary_timeout
      | some remaining ↦ shortened share c.primary_timeout remaining
    ])

-- A call of Get, in the order in which it learns of things: what `cid.Parse` returns, what the
-- primary phase is woken by, the state of the caller's context and of the client after it, and the
-- rounds of the fallback, one for each gateway of the client.
pub record Call : Type 0 where
  pub parse : Option Error
  pub primary : Wakeup
  pub context_after : Option ContextErr
  pub closed_after : Bool
  pub rounds : List Round

-- What Get makes of the end of the fallback.
abbrev pub combined : Error → Option Error → Option Error
combined e none = none
combined e (some f) = if is_some (as_size_limit f) then some f else some (joined e f)

abbrev pub fall_back : Settings → ℤ → Cooldowns → Call → Error → Fetched
fall_back c limit cs call e =
    if not (fallback_available c)
    then ends cs (some e)
    else if call.closed_after
    then ends cs (some closed)
    else (let f = fetch_from_gateways c.backoff limit cs call.rounds in
        record f { failure = combined e f.failure })

abbrev pub after_primary : Settings → ℤ → Cooldowns → Call → Option Error → Fetched
after_primary c limit cs call none = ends cs none
after_primary c limit cs call (some e) =
    if is_closed_err e
    then ends cs (some e)
    else if is_some (as_size_limit e)
    then ends cs (some e)
    else elim call.context_after [
      | some ended ↦ ends cs (some (context_error ended))
      | none ↦ fall_back c limit cs call e
    ]

-- `Get`.
unfoldable pub get : Settings → ℤ → Cooldowns → Call → Fetched
unfolding fallback_available
get c limit cs call = elim call.parse [
  | some e ↦ ends cs (some (wrapped (codes "invalid cid") e))
  | none ↦ after_primary c limit cs call (await_download call.primary)
]
