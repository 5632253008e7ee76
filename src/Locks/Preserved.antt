-- ===== src/Locks/Preserved.antt =====
-- client/output.go: every step keeps the invariant of the locks.
use ipfs_mobile.Prelude.{
  ◌⊎◌, ℕ, ◌-◌, ◌≡◌, ◌≤◌, refl, inl, inr, Bool, true, false, Option, none, some, List, [], ◌∷◌,
  arith,
}
use ipfs_mobile.Prelude.Tests.{◌==◌, if◌then◌else◌, Bool-cases}
use ipfs_mobile.Prelude.Lists.{
  total, set, get_elem?, All, All-set, All-get_elem?, All-map₂, All-total_zero, get_elem?-le-total,
}
use ipfs_mobile.Prelude.Text.{Text, text_eq, text_eq_refl}
use ipfs_mobile.Prelude.Dict.{Dict, lookup, insert, erase, lookup-insert, lookup-erase}
use ipfs_mobile.FilePath.{clean}
use ipfs_mobile.Lifecycle.{remove}
use ipfs_mobile.Lifecycle.System.{contains}
use ipfs_mobile.Locks.{
  System, Phase, Event, Action, queued, inside, leaving, gone, enter, give_up, unlock, finish, call,
  act, claim, drop, count_of, step, run, advance, moved, act_at, initial,
}
use ipfs_mobile.Locks.Invariant.{
  Inv, at, inside_at, HasGate, token-Inv, claim_gate-Inv, dropped-Inv, HasGate-other,
  contains-remove, contains-cons, left,
}

module _ (s : System) (inv : Inv s) (i : ℕ) where
  drop-Inv :
      (key : Text) (g : ℕ)
      → get_elem? s.threads i ≡ some (leaving key g)
      → Inv (record s { locks = drop key s.locks; threads = set s.threads i gone })
  unfolding drop
  drop-Inv key g here = go (Bool-cases (count_of (lookup key s.locks.waiting) - 1 == 0))
    where
      n : ℕ
      n = count_of (lookup key s.locks.waiting) - 1

      present : 1 ≤ total (at key) s.threads
      present = ground (arith, get_elem?-le-total (at key) s.threads i here, text_eq_refl key)

      gates : All (HasGate s.locks.held) (set s.threads i gone)
      gates = All-set (HasGate s.locks.held) s.threads i gone inv.gates tt

      none_left : (n == 0) ≡ true → total (at key) (set s.threads i gone) ≡ 0
      none_left h =
          ground (arith, left s inv key i g here key, text_eq_refl key, inv.counted key, present)

      same : (m : Dict ℕ) (k : Text) → text_eq key k ≡ false → lookup k (erase key m) ≡ lookup k m
      same m k e = rw (lookup-erase, e) refl

      go :
          ((n == 0) ≡ true) ⊎ ((n == 0) ≡ false)
          → Inv (record s { locks = drop key s.locks; threads = set s.threads i gone })
      go (inl h) = rw h (
          dropped-Inv s inv key i g here (erase key s.locks.held) (erase key s.locks.waiting)
            (same s.locks.held) (same s.locks.waiting)
            (rw (lookup-erase, text_eq_refl key) (ground (arith, inv.counted key, present)))
            (λ _.
              (rw (lookup-erase, text_eq_refl key) refl, rw (lookup-erase, text_eq_refl key) refl))
            (All-map₂ (set s.threads i gone)
              (HasGate-other s.locks.held (erase key s.locks.held) key (same s.locks.held)) gates
              (All-total_zero (at key) (set s.threads i gone) (none_left h))))
      go (inr h) = rw h (
          dropped-Inv s inv key i g here s.locks.held (insert key n s.locks.waiting) (λ k e. refl)
            (λ k e. rw (lookup-insert, e) refl)
            (rw (lookup-insert, text_eq_refl key) (ground (arith, inv.counted key, present)))
            (λ z. absurd (
              ground
                (arith, left s inv key i g here key, text_eq_refl key, inv.counted key, present)))
            gates)

  enter-Inv :
      (k : Text) (g : ℕ) (b : Bool)
      → contains g s.full ≡ b
      → get_elem? s.threads i ≡ some (queued k g)
      → Inv (moved s i (if b then none else some (record s { full = g ∷ s.full }, inside k g)))
  enter-Inv k g true e here = inv
  enter-Inv k g false e here =
      token-Inv s inv i (queued k g) (inside k g) here (g ∷ s.full) (λ j. refl)
        (All-get_elem? (HasGate s.locks.held) s.threads i inv.gates here)
        (λ h. ground (arith, contains-cons g h s.full))

  advance-Inv :
      (x : Phase) (e : Event) → get_elem? s.threads i ≡ some x → Inv (moved s i (advance s x e))
  advance-Inv (queued k g) enter here = enter-Inv k g (contains g s.full) refl here
  advance-Inv (queued k g) give_up here =
      token-Inv s inv i (queued k g) (leaving k g) here s.full (λ j. refl)
        (All-get_elem? (HasGate s.locks.held) s.threads i inv.gates here) (λ h. refl)
  advance-Inv (inside k g) unlock here =
      token-Inv s inv i (inside k g) (leaving k g) here (remove g s.full) (λ j. refl)
        (All-get_elem? (HasGate s.locks.held) s.threads i inv.gates here)
        (λ h. ground (
          arith,
          contains-remove g h s.full,
          inv.tokens h,
          get_elem?-le-total (inside_at h) s.threads i here,
        ))
  advance-Inv (leaving k g) finish here = drop-Inv k g here
  advance-Inv _ _ here = inv

  act-Inv : (o : Option Phase) (e : Event) → get_elem? s.threads i ≡ o → Inv (act_at s i o e)
  act-Inv none e here = inv
  act-Inv (some x) e here = advance-Inv x e here

step-Inv : (s : System) (a : Action) → Inv s → Inv (step s a)
unfolding step claim
step-Inv s (call path) inv =
    claim_gate-Inv s inv (clean path) (lookup (clean path) s.locks.held) refl
step-Inv s (act i e) inv = act-Inv s inv i (get_elem? s.threads i) e refl

pub run-Inv : (s : System) (as' : List Action) → Inv s → Inv (run s as')
unfolding run
run-Inv s [] inv = inv
run-Inv s (a ∷ as') inv = run-Inv (step s a) as' (step-Inv s a inv)

pub initial-Inv : Inv initial
unfolding lookup contains
initial-Inv = record {
  counted = λ k. refl;
  tidy = λ k h. (refl, refl);
  gates = tt;
  tokens = λ g. refl;
}
