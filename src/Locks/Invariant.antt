-- ===== src/Locks/Invariant.antt =====
-- client/output.go: what holds between any two sections of `lock`.
use ipfs_mobile.Prelude.{
  ◌∙◌, subst, ℕ, ◌+◌, ◌≡◌, refl, inl, inr, ◌⊎◌, true, false, Option, none, some, List, [], ◌∷◌,
  arith,
}
use ipfs_mobile.Prelude.Tests.{◌==◌, if◌then◌else◌, Bool-cases}
use ipfs_mobile.Prelude.Lists.{total, set, get_elem?, All, total-set, All-set, All-map, All-map₂}
use ipfs_mobile.Prelude.Text.{Text, text_eq, text_eq_iff, text_eq_refl}
use ipfs_mobile.Prelude.Dict.{Dict, lookup, insert, lookup-insert}
use ipfs_mobile.Lifecycle.{remove}
use ipfs_mobile.Lifecycle.System.{contains}
use ipfs_mobile.Locks.{
  System, Phase, queued, inside, leaving, gone, claim_gate, count_of, count_up, called,
}

-- Whether a call uses the lock of the path `k`, and whether it holds the token of the channel `g`.
abbrev pub at : Text → Phase → ℕ
at k (queued j g) = if text_eq j k then 1 else 0
at k (inside j g) = if text_eq j k then 1 else 0
at k (leaving j g) = if text_eq j k then 1 else 0
at k gone = 0

abbrev pub inside_at : ℕ → Phase → ℕ
inside_at g (inside k h) = if h == g then 1 else 0
inside_at g _ = 0

-- Its channel is the one that the map has for its path.
abbrev pub HasGate : Dict ℕ → Phase → Type 0
HasGate held (queued k g) = lookup k held ≡ some g
HasGate held (inside k g) = lookup k held ≡ some g
HasGate held (leaving k g) = lookup k held ≡ some g
HasGate held gone = Unit {0}

pub record Inv (s : System) : Type 0 where
  pub counted : (k : Text) → count_of (lookup k s.locks.waiting) ≡ total (at k) s.threads
  pub tidy :
      (k : Text)
      → total (at k) s.threads ≡ 0
      → (lookup k s.locks.held ≡ none) × (lookup k s.locks.waiting ≡ none)
  pub gates : All (HasGate s.locks.held) s.threads
  pub tokens : (g : ℕ) → total (inside_at g) s.threads ≡ (if contains g s.full then 1 else 0)

pub contains-remove :
    (g h : ℕ) (xs : List ℕ) → contains h (remove g xs) ≡ (if g == h then false else contains h xs)
unfolding contains remove
contains-remove g h [] = ground arith
contains-remove g h (x ∷ xs) = ground (arith, contains-remove g h xs)

pub contains-cons :
    (g h : ℕ) (xs : List ℕ) → contains h (g ∷ xs) ≡ (if g == h then true else contains h xs)
unfolding contains
contains-cons g h xs = ground arith

-- A step of one call that leaves the map of locks alone.
module _ (s : System) (inv : Inv s) (i : ℕ) (x v : Phase)
    (here : get_elem? s.threads i ≡ some x) where
  pub token-Inv :
      (full : List ℕ)
      → ((k : Text) → at k v ≡ at k x)
      → HasGate s.locks.held v
      → ((g : ℕ)
          → (if contains g full then 1 else 0) + inside_at g x
            ≡ (if contains g s.full then 1 else 0) + inside_at g v)
      → Inv (record s { full = full; threads = set s.threads i v })
  token-Inv full same gate moves = record {
    counted = λ k. omega (arith, inv.counted k, same k, total-set (at k) s.threads i v here);
    tidy = λ k h. inv.tidy k (omega (arith, h, same k, total-set (at k) s.threads i v here));
    gates = All-set (HasGate s.locks.held) s.threads i v inv.gates gate;
    tokens = λ g. omega (arith, inv.tokens g, moves g, total-set (inside_at g) s.threads i v here);
  }

-- The other users of a path keep its channel where an entry changes that none of them uses.
pub HasGate-other :
    (held held' : Dict ℕ) (key : Text)
    → ((k : Text) → text_eq key k ≡ false → lookup k held' ≡ lookup k held)
    → (x : Phase) → HasGate held x
    → at key x ≡ 0
    → HasGate held' x
HasGate-other held held' key same (queued k g) h z =
    same k (ground (arith, text_eq_iff key k, text_eq_iff k key)) ∙ h
HasGate-other held held' key same (inside k g) h z =
    same k (ground (arith, text_eq_iff key k, text_eq_iff k key)) ∙ h
HasGate-other held held' key same (leaving k g) h z =
    same k (ground (arith, text_eq_iff key k, text_eq_iff k key)) ∙ h
HasGate-other held held' key same gone h z = tt

unused :
    (held : Dict ℕ) (key : Text) (x : Phase)
    → lookup key held ≡ none
    → HasGate held x
    → at key x ≡ 0
unused held key (queued k g) e h = ground (arith, text_eq_iff k key)
unused held key (inside k g) e h = ground (arith, text_eq_iff k key)
unused held key (leaving k g) e h = ground (arith, text_eq_iff k key)
unused held key gone e h = refl

module _ (s : System) (inv : Inv s) (key : Text) where
  -- With one user more, and the channel of the path in the map.
  called-Inv :
      (held : Dict ℕ) (next g : ℕ)
      → lookup key held ≡ some g
      → ((k : Text) → text_eq key k ≡ false → lookup k held ≡ lookup k s.locks.held)
      → All (HasGate held) s.threads
      → Inv (called s key (count_up key (record (s.locks) { held = held; next_gate = next }), g))
  called-Inv held next g at_key same gates = record {
    counted = λ k. counts k;
    tidy = λ k h.
        (let other = not_key k h in
          (
            same k other ∙ (inv.tidy k (omega (arith, h))).0,
            waits k other ∙ (inv.tidy k (omega (arith, h))).1,
          ));
    gates = (at_key, gates);
    tokens = λ g. omega (arith, inv.tokens g);
  }
    where
      counts :
          (k : Text)
          → count_of
              (lookup k (insert key (count_of (lookup key s.locks.waiting) + 1) s.locks.waiting))
            ≡ (if text_eq key k then 1 else 0) + total (at k) s.threads
      counts k =
          rw lookup-insert (ground (arith, text_eq_iff key k, inv.counted k, inv.counted key))

      not_key :
          (k : Text)
          → (if text_eq key k then 1 else 0) + total (at k) s.threads ≡ 0
          → text_eq key k ≡ false
      not_key k h = ground arith

      waits :
          (k : Text)
          → text_eq key k ≡ false
          → lookup k (insert key (count_of (lookup key s.locks.waiting) + 1) s.locks.waiting)
            ≡ lookup k s.locks.waiting
      waits k h = rw (lookup-insert, h) refl

  pub claim_gate-Inv :
      (o : Option ℕ) → lookup key s.locks.held ≡ o → Inv (called s key (claim_gate key s.locks o))
  claim_gate-Inv (some g) h = called-Inv s.locks.held s.locks.next_gate g h (λ k e. refl) inv.gates
  claim_gate-Inv none h = called-Inv held' (s.locks.next_gate + 1) s.locks.next_gate at_key same (
      All-map₂ s.threads (HasGate-other s.locks.held held' key same) inv.gates
        (All-map s.threads (λ x. unused s.locks.held key x h) inv.gates))
    where
      held' : Dict ℕ
      held' = insert key s.locks.next_gate s.locks.held

      at_key : lookup key held' ≡ some s.locks.next_gate
      at_key = rw (lookup-insert, text_eq_refl key) refl

      same : (k : Text) → text_eq key k ≡ false → lookup k held' ≡ lookup k s.locks.held
      same k e = rw (lookup-insert, e) refl

  -- With one user less; the entry goes with the last one.
  module _ (i g : ℕ) (here : get_elem? s.threads i ≡ some (leaving key g)) where
    pub left :
        (k : Text)
        → total (at k) (set s.threads i gone) + (if text_eq key k then 1 else 0)
          ≡ total (at k) s.threads
    left k = omega (arith, total-set (at k) s.threads i gone here)

    pub dropped-Inv :
        (held : Dict ℕ) (waiting : Dict ℕ)
        → ((k : Text) → text_eq key k ≡ false → lookup k held ≡ lookup k s.locks.held)
        → ((k : Text) → text_eq key k ≡ false → lookup k waiting ≡ lookup k s.locks.waiting)
        → count_of (lookup key waiting) + 1 ≡ total (at key) s.threads
        → (total (at key) (set s.threads i gone) ≡ 0
            → (lookup key held ≡ none) × (lookup key waiting ≡ none))
        → All (HasGate held) (set s.threads i gone)
        → Inv (record s {
          locks = record (s.locks) { held = held; waiting = waiting };
          threads = set s.threads i gone;
        })
    dropped-Inv held waiting same_held same_waiting fewer last gates = record {
      counted = λ k. counts k (Bool-cases (text_eq key k));
      tidy = λ k h. tidies k h (Bool-cases (text_eq key k));
      gates = gates;
      tokens = λ h. omega (arith, inv.tokens h, total-set (inside_at h) s.threads i gone here);
    }
      where
        counts :
            (k : Text)
            → (text_eq key k ≡ true) ⊎ (text_eq key k ≡ false)
            → count_of (lookup k waiting) ≡ total (at k) (set s.threads i gone)
        counts k (inl e) =
            let eq = (text_eq_iff key k).0 e in
            subst (λ j. count_of (lookup j waiting) ≡ total (at j) (set s.threads i gone)) eq
              (ground (arith, left key, fewer, text_eq_refl key))
        counts k (inr e) = rw (same_waiting k e) (ground (arith, e, left k, inv.counted k))

        tidies :
            (k : Text)
            → total (at k) (set s.threads i gone) ≡ 0
            → (text_eq key k ≡ true) ⊎ (text_eq key k ≡ false)
            → (lookup k held ≡ none) × (lookup k waiting ≡ none)
        tidies k h (inl e) =
            let eq = (text_eq_iff key k).0 e in
            subst
              (λ j.
                total (at j) (set s.threads i gone) ≡ 0
                → (lookup j held ≡ none) × (lookup j waiting ≡ none))
              eq last h
        tidies k h (inr e) =
            let t = inv.tidy k (ground (arith, left k, e, h)) in
            (same_held k e ∙ t.0, same_waiting k e ∙ t.1)
