-- ===== src/Routers/Invariant.antt =====
-- client/routing.go: what holds of a search between any two steps.
use ipfs_mobile.Prelude.{
  ℕ, zero, suc, ◌+◌, ◌≡◌, ◌≤◌, refl, Bool, true, false, ◌&&◌, inl, inr, ◌⊎◌, Option, none, some,
  List, [], ◌∷◌, arith, ◌∙◌, ap,
}
use ipfs_mobile.Prelude.Tests.{leb, ltb, if◌then◌else◌, Bool-cases}
use ipfs_mobile.Prelude.Lists.{
  get_elem?, set, total, length, total-set, length-set, get_elem?-le-total, set_same,
}
use ipfs_mobile.Prelude.Text.{Text, text_eq, text_eq_iff}
use ipfs_mobile.Peers.{elem}
use ipfs_mobile.Routers.{
  Searcher, ranging, sending, over, Search, Event, finds, ends, sends, gives_up, Action, search,
  cancel, finish, record_provider, sent, advance, all_over, moved, act_at, step, run, starting,
  initial,
}

-- How often an ID is in a list, and whether a goroutine is about to send it.
abbrev pub times : Text → List Text → ℕ
times id [] = 0
times id (u ∷ us) = (if text_eq u id then 1 else 0) + times id us

abbrev pub sending_it : Text → Searcher → ℕ
sending_it id (sending u b) = if text_eq u id then 1 else 0
sending_it id _ = 0

-- Whether a goroutine can still take in a provider after this one, once the limit is reached.
abbrev pub spent : Searcher → ℕ
spent (sending u b) = if b then 1 else 0
spent over = 1
spent ranging = 0

abbrev pub carrying : Searcher → ℕ
carrying (sending u b) = 1
carrying _ = 0

abbrev pub active : Searcher → ℕ
active over = 0
active _ = 1

pub record Inv (n k : ℕ) (s : Search) : Type 0 where
  pub same_number : length s.searchers ≡ n
  pub same_limit : s.limit ≡ k
  pub once :
      (id : Text)
      → times id s.delivered + total (sending_it id) s.searchers ≤ (if elem id s.seen then 1 else 0)
  pub kept :
      (id : Text)
      → (if s.cancelled then 0 else if elem id s.seen then 1 else 0)
        ≤ times id s.delivered + total (sending_it id) s.searchers
  pub within : (if ltb 0 s.limit then length s.seen + 1 else 0) ≤ s.limit + total spent s.searchers
  pub counted : length s.delivered + total carrying s.searchers ≤ length s.seen
  pub ended : (if s.is_closed then total active s.searchers else 0) ≡ 0

pub elem-cons :
    (u id : Text) (us : List Text) → elem id (u ∷ us) ≡ (if text_eq u id then true else elem id us)
unfolding elem
elem-cons u id us = ground arith

module _ (n k : ℕ) (s : Search) (inv : Inv n k s) (i : ℕ) (x : Searcher)
    (here : get_elem? s.searchers i ≡ some x) where
  -- A goroutine that moves on and changes nothing else but, perhaps, that it has a provider.
  found-Inv :
      (id : Text)
      → x ≡ ranging
      → elem id s.seen ≡ false
      → Inv n k (record s {
        seen = id ∷ s.seen;
        searchers =
            set s.searchers i (sending id (ltb 0 s.limit && leb s.limit (length s.seen + 1)));
      })
  found-Inv id e new = record {
    same_number =
        length-set s.searchers i (sending id (ltb 0 s.limit && leb s.limit (length s.seen + 1)))
        ∙ inv.same_number;
    same_limit = inv.same_limit;
    once = λ id'. ground (
      arith,
      total-set (sending_it id') s.searchers i
          (sending id (ltb 0 s.limit && leb s.limit (length s.seen + 1))) here,
      inv.once id',
      elem-cons id id' s.seen,
      text_eq_iff id id',
    );
    kept = λ id'. ground (
      arith,
      total-set (sending_it id') s.searchers i
          (sending id (ltb 0 s.limit && leb s.limit (length s.seen + 1))) here,
      inv.kept id',
      elem-cons id id' s.seen,
      text_eq_iff id id',
    );
    within = ground (
      arith,
      total-set spent s.searchers i (sending id (ltb 0 s.limit && leb s.limit (length s.seen + 1)))
          here,
      inv.within,
    );
    counted = ground (
      arith,
      total-set carrying s.searchers i
          (sending id (ltb 0 s.limit && leb s.limit (length s.seen + 1))) here,
      inv.counted,
    );
    ended = ground (
      arith,
      total-set active s.searchers i (sending id (ltb 0 s.limit && leb s.limit (length s.seen + 1)))
          here,
      get_elem?-le-total active s.searchers i here,
      inv.ended,
    );
  }

  sent-Inv : (id : Text) (b : Bool) → x ≡ sending id b → Inv n k (moved s i (some (sent s id b)))
  sent-Inv id b e = record {
    same_number = length-set s.searchers i (if b then over else ranging) ∙ inv.same_number;
    same_limit = inv.same_limit;
    once = λ id'. ground (
      arith,
      total-set (sending_it id') s.searchers i (if b then over else ranging) here,
      inv.once id',
    );
    kept = λ id'. ground (
      arith,
      total-set (sending_it id') s.searchers i (if b then over else ranging) here,
      inv.kept id',
    );
    within =
        ground
          (arith, total-set spent s.searchers i (if b then over else ranging) here, inv.within);
    counted =
        ground
          (arith, total-set carrying s.searchers i (if b then over else ranging) here, inv.counted);
    ended = ground (
      arith,
      total-set active s.searchers i (if b then over else ranging) here,
      get_elem?-le-total active s.searchers i here,
      inv.ended,
    );
  }

  over-Inv :
      (x ≡ ranging) ⊎ (s.cancelled ≡ true)
      → Inv n k (record s { searchers = set s.searchers i over })
  over-Inv why = record {
    same_number = length-set s.searchers i over ∙ inv.same_number;
    same_limit = inv.same_limit;
    once = λ id'. ground (arith, total-set (sending_it id') s.searchers i over here, inv.once id');
    kept = λ id'. ground (arith, total-set (sending_it id') s.searchers i over here, inv.kept id');
    within = ground (arith, total-set spent s.searchers i over here, inv.within);
    counted = ground (arith, total-set carrying s.searchers i over here, inv.counted);
    ended = ground (
      arith,
      total-set active s.searchers i over here,
      get_elem?-le-total active s.searchers i here,
      inv.ended,
    );
  }

  record_provider-Inv :
      (id : Text) → x ≡ ranging → Inv n k (moved s i (some (record_provider s id)))
  unfolding record_provider
  record_provider-Inv id e = elim (Bool-cases (elem id s.seen)) [
    | inl old ↦ rw old (unmoved (set_same s.searchers i ranging (here ∙ ap some e)))
    | inr new ↦ rw new (found-Inv id e new)
  ]
    where
      unmoved :
          set s.searchers i ranging ≡ s.searchers
          → Inv n k (record s { searchers = set s.searchers i ranging })
      unmoved same = rw same inv

  gives_up-Inv :
      (b : Bool) → s.cancelled ≡ b → Inv n k (moved s i (if b then some (s, over) else none))
  gives_up-Inv true c = over-Inv (inr c)
  gives_up-Inv false c = inv

  advance-Inv : (y : Searcher) (e : Event) → x ≡ y → Inv n k (moved s i (advance s y e))
  unfolding advance
  advance-Inv ranging (finds id) h = record_provider-Inv id h
  advance-Inv ranging ends h = over-Inv (inl h)
  advance-Inv (sending id b) sends h = sent-Inv id b h
  advance-Inv (sending id b) gives_up h = gives_up-Inv s.cancelled refl
  advance-Inv _ _ h = inv

act-Inv :
    (n k : ℕ) (s : Search)
    → Inv n k s
    → (i : ℕ) (o : Option Searcher) (e : Event) → get_elem? s.searchers i ≡ o
    → Inv n k (act_at s i o e)
act-Inv n k s inv i none e h = inv
act-Inv n k s inv i (some x) e h = advance-Inv n k s inv i x h x e refl

all_over-active : (xs : List Searcher) → all_over xs ≡ true → total active xs ≡ 0
unfolding all_over
all_over-active [] h = refl
all_over-active (over ∷ xs) h = omega (arith, all_over-active xs h)
all_over-active (ranging ∷ xs) h = cc
all_over-active (sending u b ∷ xs) h = cc

step-Inv : (n k : ℕ) (s : Search) (a : Action) → Inv n k s → Inv n k (step s a)
unfolding step
step-Inv n k s (search i e) inv = act-Inv n k s inv i (get_elem? s.searchers i) e refl
step-Inv n k s cancel inv = record {
  same_number = inv.same_number;
  same_limit = inv.same_limit;
  once = inv.once;
  kept = λ id. omega arith;
  within = inv.within;
  counted = inv.counted;
  ended = inv.ended;
}
step-Inv n k s finish inv = elim (Bool-cases (all_over s.searchers)) [
  | inr h ↦ rw h inv
  | inl h ↦ rw h (record {
    same_number = inv.same_number;
    same_limit = inv.same_limit;
    once = inv.once;
    kept = λ id. omega arith;
    within = inv.within;
    counted = inv.counted;
    ended = all_over-active s.searchers h;
  })
]

pub run-Inv : (n k : ℕ) (s : Search) (as' : List Action) → Inv n k s → Inv n k (run s as')
unfolding run
run-Inv n k s [] inv = inv
run-Inv n k s (a ∷ as') inv = run-Inv n k (step s a) as' (step-Inv n k s a inv)

total_starting :
    (n : ℕ)
    → (length (starting n) ≡ n)
      × ((id : Text) → total (sending_it id) (starting n) ≡ 0)
      × (total carrying (starting n) ≡ 0)
unfolding starting
total_starting zero = (refl, λ id. refl, refl)
total_starting (suc n) =
    let (a, b, c) = total_starting n in (ap suc a, λ id. omega (arith, b id), omega (arith, c))

pub initial-Inv : (n limit : ℕ) → Inv n limit (initial n limit)
unfolding initial elem
initial-Inv n limit =
    let (a, b, c) = total_starting n in
    record {
      same_number = a;
      same_limit = refl;
      once = λ id. omega (arith, b id);
      kept = λ id. omega arith;
      within = ground arith;
      counted = omega (arith, c);
      ended = refl;
    }
