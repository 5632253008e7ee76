-- ===== src/Routers/Ending.antt =====
-- client/routing.go: once its caller has given up and receives no more, a search ends, in whatever
-- order its goroutines take their steps.
use ipfs_mobile.Prelude.{
  ℕ, zero, suc, ◌+◌, ◌≡◌, ◌≢◌, ◌≤◌, ◌<◌, refl, true, false, inl, inr, ◌⊎◌, Option, none, some, List,
  [], ◌∷◌, arith, ap, ap₂, sym, ◌∙◌,
}
use ipfs_mobile.Prelude.Tests.{if◌then◌else◌, Bool-cases}
use ipfs_mobile.Prelude.Lists.{get_elem?, set, total, total-set, total-pos, set_same}
use ipfs_mobile.Peers.{elem}
use ipfs_mobile.Routers.{
  Searcher, ranging, sending, over, Search, Event, finds, ends, sends, gives_up, Action, search,
  cancel, finish, record_provider, advance, all_over, moved, act_at, step,
}
use ipfs_mobile.Routers.Invariant.{active}

-- Every action but that the caller receives a provider.
abbrev pub Sendless : Action → Type 0
Sendless (search i sends) = ⊥
Sendless _ = Unit

-- In every order of steps without a receiver that change the state, the merged channel gets closed:
-- it is closed, or there is such a step, and it gets closed after each of them.
pub data Closes : Search → Type 0 where
  closed : {s : Search} → s.is_closed ≡ true → Closes s
  going :
      {s : Search} (a : Action)
      → Sendless a
      → step s a ≢ s
      → ((b : Action) → Sendless b → step s b ≢ s → Closes (step s b))
      → Closes s

-- The steps that a goroutine can still take.
abbrev weight : Searcher → ℕ
weight ranging = 2
weight (sending id b) = 1
weight over = 0

abbrev measure : Search → ℕ
measure s = total weight s.searchers + (if s.is_closed then 0 else 1)

-- What a goroutine's step does to its weight: it changes nothing, or makes it less.
abbrev Lighter : Search → Searcher → Option (Search × Searcher) → Type 0
Lighter s x none = Unit
Lighter s x (some (s', y)) =
    ((s' ≡ s) × (y ≡ x))
    ⊎ ((s'.searchers ≡ s.searchers)
        × (s'.is_closed ≡ s.is_closed)
        × (s'.cancelled ≡ s.cancelled)
        × (weight y < weight x))

-- A step of the whole changes nothing, or there are fewer to come.
abbrev Falls : Search → Search → Type 0
Falls s t = (t ≡ s) ⊎ ((t.cancelled ≡ s.cancelled) × (measure t < measure s))

not_over-active : (xs : List Searcher) → all_over xs ≡ false → 0 < total active xs
unfolding all_over
not_over-active [] h = cc
not_over-active (ranging ∷ xs) h = omega arith
not_over-active (sending id b ∷ xs) h = omega arith
not_over-active (over ∷ xs) h = omega (arith, not_over-active xs h)

module _ (s : Search) (given_up : s.cancelled ≡ true) where
  advance-Lighter :
      (i : ℕ) (x : Searcher) (e : Event) → Sendless (search i e) → Lighter s x (advance s x e)
  unfolding advance record_provider
  advance-Lighter i ranging (finds id) h = elim (Bool-cases (elem id s.seen)) [
    | inl b ↦ rw b (inl (refl, refl))
    | inr b ↦ rw b (inr (refl, refl, refl, omega arith))
  ]
  advance-Lighter i ranging ends h = inr (refl, refl, refl, omega arith)
  advance-Lighter i ranging gives_up h = tt
  advance-Lighter i ranging sends h = absurd h
  advance-Lighter i (sending id b) sends h = absurd h
  advance-Lighter i (sending id b) gives_up h = rw given_up (inr (refl, refl, refl, omega arith))
  advance-Lighter i (sending id b) (finds v) h = tt
  advance-Lighter i (sending id b) ends h = tt
  advance-Lighter i over sends h = absurd h
  advance-Lighter i over (finds v) h = tt
  advance-Lighter i over ends h = tt
  advance-Lighter i over gives_up h = tt

  moved-Falls :
      (i : ℕ) (x : Searcher) (o : Option (Search × Searcher))
      → get_elem? s.searchers i ≡ some x
      → Lighter s x o
      → Falls s (moved s i o)
  moved-Falls i x none at h = inl refl
  moved-Falls i x (some (s', y)) at (inl (same, still)) =
      inl (rw (same, still, set_same s.searchers i x at) refl)
  moved-Falls i x (some (s', y)) at (inr (xs, c, g, l)) =
      inr (g, rw c (omega (arith, l, total-set weight s.searchers i y at)))

  step-Falls : (a : Action) → Sendless a → Falls s (step s a)
  unfolding step
  step-Falls cancel h = inl (ap (λ b. record s { cancelled = b }) (sym given_up))
  step-Falls finish h = elim (Bool-cases (all_over s.searchers)) [
    | inr b ↦ rw b (inl refl)
    | inl b ↦ rw b (elim (Bool-cases s.is_closed) [
      | inl c ↦ inl (ap₂ (λ b d. record s { is_closed = b; cancelled = d }) (sym c) (sym given_up))
      | inr c ↦ inr (sym given_up, rw c (omega arith))
    ])
  ]
  step-Falls (search i e) h = go (get_elem? s.searchers i) refl
    where
      go : (o : Option Searcher) → get_elem? s.searchers i ≡ o → Falls s (act_at s i o e)
      go none at = inl refl
      go (some x) at = moved-Falls i x (advance s x e) at (advance-Lighter i x e h)

  -- A goroutine that is not through has a step that does not wait for the caller.
  leaving :
      (i : ℕ) (x : Searcher)
      → 0 < active x
      → (e : Event) × Sendless (search i e) × (advance s x e ≡ some (s, over))
  unfolding advance
  leaving i ranging l = (ends, tt, refl)
  leaving i (sending id b) l = (gives_up, tt, rw given_up refl)
  leaving i over l = absurd (omega (arith, l))

  -- Until the channel is closed, a goroutine that is not through has a step, or else the one that
  -- waits for them.
  going_on : s.is_closed ≡ false → (a : Action) × Sendless a × (step s a ≢ s)
  unfolding step
  going_on c = elim (Bool-cases (all_over s.searchers)) [
    | inl b ↦ (
      finish,
      tt,
      λ e. contradicts (
          sym c
          ∙ ap (λ t. t.is_closed) (sym e)
          ∙ ap (λ t. (if t then record s { is_closed = true; cancelled = true } else s).is_closed)
              b),
    )
    | inr b ↦ leave (total-pos active s.searchers (not_over-active s.searchers b))
  ]
    where
      contradicts : false ≡ true → ⊥
      contradicts h = cc

      leave :
          (i : ℕ) × (x : Searcher) × (get_elem? s.searchers i ≡ some x) × (0 < active x)
          → (a : Action) × Sendless a × (step s a ≢ s)
      leave (i, x, at, l) =
          let (e, free, through) = leaving i x l in
          let there : step s (search i e) ≡ record s { searchers = set s.searchers i over } =
            ap (λ o. act_at s i o e) at ∙ ap (moved s i) through in
          (
            search i e,
            free,
            λ same. omega (
              arith,
              l,
              total-set active s.searchers i over at,
              ap (λ t. total active t.searchers) (sym there ∙ same),
            ),
          )

closes : (n : ℕ) (s : Search) → s.cancelled ≡ true → measure s ≤ n → Closes s
closes zero s given_up bound = elim (Bool-cases s.is_closed) [
  | inl c ↦ closed c
  | inr c ↦ ground arith
]
closes (suc n) s given_up bound = elim (Bool-cases s.is_closed) [
  | inl c ↦ closed c
  | inr c ↦
      let (a, free, changes) = going_on s given_up c in
      going a free changes (λ b h other. elim (step-Falls s given_up b h) [
        | inl same ↦ absurd (other same)
        | inr (g, l) ↦ closes n (step s b) (g ∙ given_up) (omega (arith, l, bound))
      ])
]

-- Once the caller has cancelled a search and receives no more, the merged channel gets closed in
-- every order of the steps that change the state, wherever the goroutines stand, and until it is
-- closed there is such a step; a router can close its own channel at any time.
pub cancelled-Closes : (s : Search) → s.cancelled ≡ true → Closes s
cancelled-Closes s given_up = closes (measure s) s given_up (omega arith)
