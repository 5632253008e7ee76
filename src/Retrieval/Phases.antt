-- ===== src/Retrieval/Phases.antt =====
-- client/client.go: what Get reports after its two phases, and when it asks a gateway.
use ipfs_mobile.Prelude.{
  ◌≡◌, refl, Bool, true, false, inl, inr, ◌⊎◌, Option, none, some, none-ne-some, List, [], ◌∷◌, sym,
  ◌∙◌, arith,
}
use ipfs_mobile.Prelude.Tests.{if◌then◌else◌, Bool-cases, Option-cases}
use ipfs_mobile.Prelude.Text.{codes}
use ipfs_mobile.Prelude.Int.{ℤ}
use ipfs_mobile.Errors.{
  Error, conclusive, await_download, is_closed_err, as_size_limit, is_some, closed, wrapped, joined,
  ContextErr, context_error,
}
use ipfs_mobile.Durations.{Backoff}
use ipfs_mobile.Fallback.{Cooldowns, Round, ends, fetch_from_gateways}
use ipfs_mobile.Fallback.Attempts.{Served, fetch_rounds-Served}
use ipfs_mobile.Retrieval.{
  Settings, Call, fallback_available, combined, fall_back, after_primary, get,
}

fetch_from_gateways-Served :
    (b : Backoff) (limit : ℤ) (cs : Cooldowns) (rs : List Round)
    → (fetch_from_gateways b limit cs rs).failure ≡ none
    → Served limit rs
unfolding fetch_from_gateways
fetch_from_gateways-Served b limit cs [] h = cc
fetch_from_gateways-Served b limit cs (r ∷ rs) h = fetch_rounds-Served b limit cs (r ∷ rs) h

combined-none : (e : Error) (f : Option Error) → combined e f ≡ none → f ≡ none
combined-none e none h = refl
combined-none e (some f) h = absurd (none-ne-some _ (sym h ∙ (kept (is_some (as_size_limit f))).1))
  where
    kept : (b : Bool) → (g : Error) × ((if b then some f else some (joined e f)) ≡ some g)
    kept true = (f, refl)
    kept false = (joined e f, refl)

-- What a success of Get may rest on.
abbrev pub Delivered : Settings → ℤ → Call → Type 0
Delivered c limit call =
    (await_download call.primary ≡ none)
    ⊎ ((c.allow_unverified ≡ true)
        × (call.closed_after ≡ false)
        × (call.context_after ≡ none)
        × Served limit call.rounds)

fall_back-Delivered :
    (c : Settings) (limit : ℤ) (cs : Cooldowns) (call : Call) (e : Error)
    → call.context_after ≡ none
    → (fall_back c limit cs call e).failure ≡ none
    → Delivered c limit call
unfolding fallback_available
fall_back-Delivered c limit cs call e alive h = elim (Bool-cases (fallback_available c)) [
  | inr off ↦ absurd (none-ne-some _ (sym h ∙ kept off))
  | inl on ↦ elim (Bool-cases call.closed_after) [
    | inl shut ↦ absurd (none-ne-some _ (sym h ∙ refused on shut))
    | inr live ↦ inr (
      and_true on,
      live,
      alive,
      fetch_from_gateways-Served c.backoff limit cs call.rounds
          (combined-none e _ (sym (tried on live) ∙ h)),
    )
  ]
]
  where
    and_true : fallback_available c ≡ true → c.allow_unverified ≡ true
    and_true on = ground arith

    kept : fallback_available c ≡ false → (fall_back c limit cs call e).failure ≡ some e
    kept off = rw off

    refused :
        fallback_available c ≡ true
        → call.closed_after ≡ true
        → (fall_back c limit cs call e).failure ≡ some closed
    refused on shut = rw (on, shut)

    tried :
        fallback_available c ≡ true
        → call.closed_after ≡ false
        → (fall_back c limit cs call e).failure
          ≡ combined e (fetch_from_gateways c.backoff limit cs call.rounds).failure
    tried on live = rw (on, live)

after_primary-Delivered :
    (c : Settings) (limit : ℤ) (cs : Cooldowns) (call : Call) (o : Option Error)
    → await_download call.primary ≡ o
    → (after_primary c limit cs call o).failure ≡ none
    → Delivered c limit call
after_primary-Delivered c limit cs call none o h = inl o
after_primary-Delivered c limit cs call (some e) o h = elim (Bool-cases (is_closed_err e)) [
  | inl s ↦ absurd (none-ne-some _ (sym h ∙ shut s))
  | inr s ↦ elim (Bool-cases (is_some (as_size_limit e))) [
    | inl l ↦ absurd (none-ne-some _ (sym h ∙ large s l))
    | inr l ↦ elim (Option-cases call.context_after) [
      | inr (d, x) ↦ absurd (none-ne-some _ (sym h ∙ ended s l d x))
      | inl x ↦ fall_back-Delivered c limit cs call e x (sym (alive s l x) ∙ h)
    ]
  ]
]
  where
    shut : is_closed_err e ≡ true → (after_primary c limit cs call (some e)).failure ≡ some e
    shut s = rw s

    large :
        is_closed_err e ≡ false
        → is_some (as_size_limit e) ≡ true
        → (after_primary c limit cs call (some e)).failure ≡ some e
    large s l = rw (s, l)

    ended :
        is_closed_err e ≡ false
        → is_some (as_size_limit e) ≡ false
        → (d : ContextErr) → call.context_after ≡ some d
        → (after_primary c limit cs call (some e)).failure ≡ some (context_error d)
    ended s l d x = rw (s, l, x)

    alive :
        is_closed_err e ≡ false
        → is_some (as_size_limit e) ≡ false
        → call.context_after ≡ none
        → (after_primary c limit cs call (some e)).failure ≡ (fall_back c limit cs call e).failure
    alive s l x = rw (s, l, x)

-- Get reports success only where the primary phase did, or where the unverified fallback is
-- allowed, neither the caller's context nor the client had ended after the primary phase, and a
-- gateway's response with status 200 was unpacked within the limit and moved into place.
pub get-Delivered :
    (c : Settings) (limit : ℤ) (cs : Cooldowns) (call : Call)
    → (get c limit cs call).failure ≡ none
    → Delivered c limit call
unfolding get
get-Delivered c limit cs call h = elim (Option-cases call.parse) [
  | inr (e, p) ↦ absurd (none-ne-some _ (sym h ∙ unparsed e p))
  | inl p ↦ after_primary-Delivered c limit cs call _ refl (sym (parsed p) ∙ h)
]
  where
    unparsed :
        (e : Error)
        → call.parse ≡ some e
        → (get c limit cs call).failure ≡ some (wrapped (codes "invalid cid") e)
    unparsed e p = rw p

    parsed :
        call.parse ≡ none
        → (get c limit cs call).failure
          ≡ (after_primary c limit cs call (await_download call.primary)).failure
    parsed p = rw p

-- Where fallbackAvailable does not hold, Get sends no gateway a request and leaves the cooldowns
-- as they were.
pub get_verified :
    (c : Settings) (limit : ℤ) (cs : Cooldowns) (call : Call)
    → fallback_available c ≡ false
    → ((get c limit cs call).asked ≡ []) × ((get c limit cs call).cooldowns ≡ cs)
unfolding get fallback_available
get_verified c limit cs call h = ground arith

-- For a CID that parses, Get returns a conclusive failure of the primary phase as it is, sends no
-- gateway a request and leaves the cooldowns as they were.
pub get-conclusive :
    (c : Settings) (limit : ℤ) (cs : Cooldowns) (call : Call) (e : Error)
    → call.parse ≡ none
    → await_download call.primary ≡ some e
    → conclusive e ≡ true
    → get c limit cs call ≡ ends cs (some e)
unfolding get conclusive
get-conclusive c limit cs call e parsed failed final = ground arith
