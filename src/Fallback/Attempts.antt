-- ===== src/Fallback/Attempts.antt =====
-- client/fallback.go: what a success of the loop over the gateways rests on.
use ipfs_mobile.Prelude.{
  ℕ, ◌≡◌, refl, true, false, inl, inr, Option, none, some, none-ne-some, List, [], ◌∷◌, ap, sym,
  ◌∙◌, ◌⊎◌,
}
use ipfs_mobile.Prelude.Tests.{◌==◌, ==_iff, if◌then◌else◌, Bool-cases, Option-cases}
use ipfs_mobile.Prelude.Text.{codes}
use ipfs_mobile.Prelude.Int.{ℤ}
use ipfs_mobile.Errors.{Error, closed, message}
use ipfs_mobile.Durations.{Backoff}
use ipfs_mobile.Fallback.{
  Cooldowns, paused, Exchange, no_response, response, Round, Fetched, ends, verdict, after_attempt,
  cooling_host, gateway_cooling_down, received, asks_for_pause, start_gateway_cooldown,
  fetch_from_gateway, fetch_rounds,
}

-- The response has status 200, is an archive by its type, unpacks within the limit and is moved
-- into place.
abbrev pub Complete : ℤ → Exchange → Type 0
Complete limit (no_response e) = ⊥
Complete limit (response host r) = (r.status ≡ 200) × (received limit r ≡ none)

fetch_from_gateway-Complete :
    (b : Backoff) (limit : ℤ) (cs : Cooldowns) (now : ℕ) (x : Exchange)
    → (fetch_from_gateway b limit cs now x).1 ≡ none
    → Complete limit x
unfolding fetch_from_gateway
fetch_from_gateway-Complete b limit cs now (no_response e) h = cc
fetch_from_gateway-Complete b limit cs now (response host r) h =
    elim (Bool-cases (r.status == 200)) [
      | inl s ↦ ((==_iff r.status 200).0 s, sym (ap (λ a. a.1) (taken s)) ∙ h)
      | inr s ↦ absurd (none-ne-some _ (sym h ∙ ap (λ a. a.1) (refused s)))
    ]
  where
    taken :
        (r.status == 200) ≡ true
        → fetch_from_gateway b limit cs now (response host r) ≡ (cs, received limit r)
    taken s = rw s

    refused :
        (r.status == 200) ≡ false
        → fetch_from_gateway b limit cs now (response host r) ≡ (
          if asks_for_pause r.status
              then start_gateway_cooldown b cs now host r.retry_after
              else cs,
          some (message (codes "http status")),
        )
    refused s = rw s

-- A loop that goes on after an attempt succeeds by the attempt or by the rest.
after_attempt-failure :
    (r : Round) (a : Cooldowns × Option Error) (rest : Fetched)
    → (after_attempt r a rest).failure ≡ none
    → (a.1 ≡ none) ⊎ (rest.failure ≡ none)
after_attempt-failure r (cs, none) rest h = inl refl
after_attempt-failure r (cs, some e) rest h =
    inr (decided (verdict r.closed_after r.context_after e) h)
  where
    decided :
        (v : Option Error)
        → (elim v as (λ _. Fetched) [ some f ↦ ends cs (some f) | none ↦ rest ]).failure ≡ none
        → rest.failure ≡ none
    decided none h = h
    decided (some f) h = cc

-- One of the rounds is let through: the client is open, its gateway is not cooling down, and its
-- response is complete.
abbrev pub Served : ℤ → List Round → Type 0
Served limit [] = ⊥
Served limit (r ∷ rs) = ((r.closed_before ≡ false) × Complete limit r.exchange) ⊎ Served limit rs

-- The loop of fetchFromGateways reports success only where one of its rounds found the client open
-- and had a response with status 200 that was unpacked within the limit and moved into place.
pub fetch_rounds-Served :
    (b : Backoff) (limit : ℤ) (cs : Cooldowns) (rs : List Round)
    → (fetch_rounds b limit cs rs).failure ≡ none
    → Served limit rs
unfolding fetch_rounds gateway_cooling_down
fetch_rounds-Served b limit cs [] h = cc
fetch_rounds-Served b limit cs (r ∷ rs) h = elim (Bool-cases r.closed_before) [
  | inl c ↦ absurd (none-ne-some _ (sym h ∙ shut c))
  | inr c ↦ elim (Option-cases (cooling_host shared r.now (r.gateway).host)) [
    | inr (d, cooling) ↦ inr (fetch_rounds-Served b limit shared rs (sym (skips c d cooling) ∙ h))
    | inl free ↦ elim (after_attempt-failure r attempt _ (sym (asks c free) ∙ h)) [
      | inl done ↦ inl (c, fetch_from_gateway-Complete b limit shared r.now r.exchange done)
      | inr rest ↦ inr (fetch_rounds-Served b limit attempt.0 rs rest)
    ]
  ]
]
  where
    shared : Cooldowns
    shared = paused b cs r.meanwhile

    attempt : Cooldowns × Option Error
    attempt = fetch_from_gateway b limit shared r.now r.exchange

    shut : r.closed_before ≡ true → (fetch_rounds b limit cs (r ∷ rs)).failure ≡ some closed
    shut c = rw c

    skips :
        r.closed_before ≡ false
        → (d : ℕ) → cooling_host shared r.now (r.gateway).host ≡ some d
        → (fetch_rounds b limit cs (r ∷ rs)).failure ≡ (fetch_rounds b limit shared rs).failure
    skips c d cooling = rw (c, cooling)

    asks :
        r.closed_before ≡ false
        → cooling_host shared r.now (r.gateway).host ≡ none
        → (fetch_rounds b limit cs (r ∷ rs)).failure
          ≡ (after_attempt r attempt (fetch_rounds b limit attempt.0 rs)).failure
    asks c free = rw (c, free)
