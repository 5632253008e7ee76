-- ===== src/Fallback/Cooldowns.antt =====
-- client/fallback.go: a host that asked for a pause is left alone until it has passed.
use ipfs_mobile.Prelude.{
  ℕ, ◌≡◌, ◌≢◌, ◌<◌, ◌≤◌, ◌+◌, ◌⊎◌, arith, refl, false, inl, inr, Option, none, some, none-ne-some,
  List, [], ◌∷◌, sym, ◌∙◌, ap,
}
use ipfs_mobile.Prelude.Tests.{lt→ltb, ◌==◌, Bool-cases, Option-cases}
use ipfs_mobile.Prelude.Lists.{All}
use ipfs_mobile.Prelude.Text.{Text, text_eq, text_eq_iff}
use ipfs_mobile.Prelude.Dict.{lookup, lookup-insert}
use ipfs_mobile.Prelude.Int.{ℤ, pos_part}
use ipfs_mobile.Errors.{Error}
use ipfs_mobile.Durations.{Backoff, retry_after_delay}
use ipfs_mobile.Fallback.{
  Cooldowns, Pause, paused, start_gateway_cooldown, Gateway, Exchange, no_response, response, Round,
  Fetched, ends, verdict, after_attempt, cooling_host, gateway_cooling_down, asks_for_pause,
  fetch_from_gateway, fetch_rounds,
}

-- The response, if there is one, comes from the gateway's own host.
abbrev pub OwnHost : Option Text → Exchange → Type 0
OwnHost h (no_response e) = Unit {0}
OwnHost h (response host r) = h ≡ some host

-- An attempt at a gateway of another host leaves the cooldown of a host as it was.
attempt_other :
    (b : Backoff) (limit : ℤ) (cs : Cooldowns) (now : ℕ) (x : Exchange) (h : Text) (g : Option Text)
    → OwnHost g x
    → g ≢ some h
    → lookup h (fetch_from_gateway b limit cs now x).0 ≡ lookup h cs
unfolding fetch_from_gateway
attempt_other b limit cs now (no_response e) h g own other = refl
attempt_other b limit cs now (response host r) h g own other = elim (Bool-cases (r.status == 200)) [
  | inl s ↦ rw s
  | inr s ↦ elim (Bool-cases (asks_for_pause r.status)) [
    | inl p ↦ rw (s, p, lookup-insert, different) refl
    | inr p ↦ rw (s, p)
  ]
]
  where
    different : text_eq host h ≡ false
    different = elim (Bool-cases (text_eq host h)) [
      | inl e ↦ absurd (other (own ∙ ap some ((text_eq_iff host h).0 e)))
      | inr n ↦ n
    ]

cooling_host-held :
    (cs : Cooldowns) (now : ℕ) (g : Option Text) (h : Text) (deadline : ℕ)
    → lookup h cs ≡ some deadline
    → now < deadline
    → cooling_host cs now g ≡ none
    → g ≢ some h
cooling_host-held cs now none h deadline held early none_cooling e = cc
cooling_host-held cs now (some k) h deadline held early none_cooling e =
    none-ne-some _ (sym none_cooling ∙ alive)
  where
    same : k ≡ h
    same = cc

    alive : cooling_host cs now (some k) ≡ some deadline
    alive = rw (same, held, lt→ltb now deadline early)

-- After a failed attempt the rest of the loop has run, or nothing more was asked.
after_attempt-asked :
    (P : Gateway → Type 0) (r : Round) (a : Cooldowns × Option Error) (rest : Fetched)
    → All P rest.asked
    → All P (after_attempt r a rest).asked
after_attempt-asked P r (cs, none) rest all = tt
after_attempt-asked P r (cs, some e) rest all = decided (verdict r.closed_after r.context_after e)
  where
    decided :
        (v : Option Error)
        → All P (elim v as (λ _. Fetched) [ some f ↦ ends cs (some f) | none ↦ rest ]).asked
    decided none = all
    decided (some f) = tt

-- While a host is cooling down, no gateway of it is sent a request, whatever the other gateways
-- answer and other downloads do.
module _ (b : Backoff) (limit : ℤ) (h : Text) (until : ℕ) where
  -- The cooldown of the host does not end before the time.
  abbrev pub Lasts : Cooldowns → Type 0
  Lasts cs = (d : ℕ) × (lookup h cs ≡ some d) × (until ≤ d)

  -- Another download pauses another host, or this one for long enough.
  abbrev pub LongEnough : Pause → Type 0
  LongEnough p =
      (text_eq p.paused_host h ≡ false)
      ⊎ (until ≤ p.asked_at + pos_part (retry_after_delay b p.header))

  abbrev pub Early : Round → Type 0
  Early r = All LongEnough r.meanwhile × (r.now < until) × OwnHost (r.gateway).host r.exchange

  start-Lasts :
      (cs : Cooldowns) (p : Pause)
      → Lasts cs
      → LongEnough p
      → Lasts (start_gateway_cooldown b cs p.asked_at p.paused_host p.header)
  unfolding start_gateway_cooldown
  start-Lasts cs p (d, held, long) enough = elim (Bool-cases (text_eq p.paused_host h)) [
    | inr other ↦ (d, rw (lookup-insert, other) held, long)
    | inl same ↦ (
      p.asked_at + pos_part (retry_after_delay b p.header),
      rw (lookup-insert, same) refl,
      ground (arith, enough, same),
    )
  ]

  paused-Lasts :
      (cs : Cooldowns) (ps : List Pause) → Lasts cs → All LongEnough ps → Lasts (paused b cs ps)
  unfolding paused
  paused-Lasts cs [] lasts enough = lasts
  paused-Lasts cs (p ∷ ps) lasts (e, es) =
      paused-Lasts (start_gateway_cooldown b cs p.asked_at p.paused_host p.header) ps
        (start-Lasts cs p lasts e) es

  -- Where the cooldown of a host lasts until some time, the clock of every round is before it,
  -- other downloads meanwhile pause this host at least until then or other hosts, and each
  -- response comes from its own gateway's host, the loop of fetchFromGateways sends no request to
  -- a gateway of that host, whatever the other gateways answer.
  pub fetch_rounds-cooling :
      (cs : Cooldowns) (rs : List Round)
      → Lasts cs
      → All Early rs
      → All (λ g. g.host ≢ some h) (fetch_rounds b limit cs rs).asked
  unfolding fetch_rounds gateway_cooling_down
  fetch_rounds-cooling cs [] lasts early = tt
  fetch_rounds-cooling cs (r ∷ rs) lasts ((enough, now, own), early) =
      elim (Bool-cases r.closed_before) [
        | inl c ↦ rw c tt
        | inr c ↦ elim (Option-cases (cooling_host shared r.now (r.gateway).host)) [
          | inl free ↦
              rw (c, free)
                (
                  other free,
                  after_attempt-asked _ r _ _ (
                      fetch_rounds-cooling (fetch_from_gateway b limit shared r.now r.exchange).0 rs
                        (still (other free)) early),
                )
          | inr (d, cooling) ↦ rw (c, cooling) (fetch_rounds-cooling shared rs kept early)
        ]
      ]
    where
      shared : Cooldowns
      shared = paused b cs r.meanwhile

      kept : Lasts shared
      kept = paused-Lasts cs r.meanwhile lasts enough

      other : cooling_host shared r.now (r.gateway).host ≡ none → (r.gateway).host ≢ some h
      other free =
          let (d, held, long) = kept in
          cooling_host-held shared r.now (r.gateway).host h d held (omega arith) free

      still :
          (r.gateway).host ≢ some h → Lasts (fetch_from_gateway b limit shared r.now r.exchange).0
      still different =
          let (d, held, long) = kept in
          (
            d,
            attempt_other b limit shared r.now r.exchange h (r.gateway).host own different ∙ held,
            long,
          )
