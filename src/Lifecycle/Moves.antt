-- ===== src/Lifecycle/Moves.antt =====
-- client/client.go: the steps of one goroutine keep the invariant.
use ipfs_mobile.Prelude.{
  subst, sym, ◌∙◌, ℕ, ◌+◌, ◌≡◌, ◌≤◌, ◌<◌, refl, Bool, true, false, Option, none, some, List, [],
  ◌∷◌, arith, ◌⊎◌, inl, inr,
}
use ipfs_mobile.Prelude.Tests.{◌==◌, if◌then◌else◌}
use ipfs_mobile.Prelude.Lists.{
  length, total, set, get_elem?, All, total-set, total_mono, All-set, All-get_elem?, All-map,
  get_elem?-le-total,
}
use ipfs_mobile.Errors.{Result, ok, err, is_some, closed}
use ipfs_mobile.Lifecycle.{Client, Entry, refused, reuse, await, claim}
use ipfs_mobile.Lifecycle.Sections.{Frame, Entered, Settled}
use ipfs_mobile.Lifecycle.System.{
  System, Phase, wanting, waiting, building, built, settled, discarding, holding, leaving, finished,
  contains, entered, outcome,
}
use ipfs_mobile.Lifecycle.Invariant.{
  Inv, uses, builds, owns, carries, claims, HasNode, Discards, IsPromised, Promised, weight,
}

-- A goroutine that is not counted has no node.
HasNode-unused : (m : Option ℕ) (x : Phase) → uses x ≡ 0 → HasNode m x
HasNode-unused m (settled p r b) h = absurd (omega arith)
HasNode-unused m (holding n) h = absurd (omega arith)
HasNode-unused m wanting h = tt
HasNode-unused m _ h = tt

pub All-HasNode_unused : (m : Option ℕ) (xs : List Phase) → total uses xs ≡ 0 → All (HasNode m) xs
All-HasNode_unused m [] h = tt
All-HasNode_unused m (x ∷ xs) h =
    (HasNode-unused m x (omega arith), All-HasNode_unused m xs (omega arith))

-- Where the client has no node, no goroutine has one, and the client may be given any.
HasNode-none : (m : Option ℕ) (x : Phase) → HasNode none x → HasNode m x
HasNode-none m (settled p (ok n) false) h = cc
HasNode-none m (settled p (ok n) true) h = tt
HasNode-none m (settled p (err e) b) h = tt
HasNode-none m (holding n) h = cc
HasNode-none m wanting h = tt
HasNode-none m _ h = tt

pub IsPromised-mono :
    (a b : List ℕ) (ts us : List Phase)
    → ((q : ℕ) → contains q a ≡ true → contains q b ≡ true)
    → ((q : ℕ) → (contains q b ≡ true) ⊎ (total (carries q) ts ≤ total (carries q) us))
    → (x : Phase) → IsPromised a ts x
    → IsPromised b us x
IsPromised-mono a b ts us f g (waiting p) (inl h) = inl (f p h)
IsPromised-mono a b ts us f g (waiting p) (inr h) = elim (g p) [
  | inl k ↦ inl k
  | inr k ↦ inr (omega arith)
]
IsPromised-mono a b ts us f g wanting h = tt
IsPromised-mono a b ts us f g _ h = tt

-- The invariant of a system in which goroutine `i` went from `x` to `v`, from what changed.
module _ (s : System) (inv : Inv s) (i : ℕ) (x v : Phase) (at : get_elem? s.threads i ≡ some x)
    (c : Client) (announced : List ℕ) (next_node : ℕ) (torn redials : List ℕ) where
  abbrev pub after : System
  after = record s {
    client = c;
    threads = set s.threads i v;
    announced = announced;
    next_node = next_node;
    torn = torn;
    redials = redials;
  }

  move-Inv :
      c.inflight + uses x ≡ s.client.inflight + uses v
      → weight c.starting + builds x ≡ weight s.client.starting + builds v
      → (is_some c.starting ≡ true → c.node ≡ none)
      → (c.closed ≡ true → c.node ≡ none)
      → (c.closed ≡ false → All (HasNode c.node) s.threads × HasNode c.node v)
      → c.closed ≡ s.client.closed
      → Discards c.closed v
      → next_node + weight s.client.node + owns x + length s.torn
        ≡ s.next_node + weight c.node + owns v + length torn
      → Promised (set s.threads i v) c.starting
      → ((q : ℕ) → contains q s.announced ≡ true → contains q announced ≡ true)
      → ((q : ℕ) → (contains q announced ≡ true) ⊎ (carries q x ≤ carries q v))
      → IsPromised announced (set s.threads i v) v
      → Inv after
  move-Inv cn bn vac emp cur same dis cons prom grow keep fits = record {
    counted = omega (arith, inv.counted, total-set uses s.threads i v at);
    one_builder = omega (arith, inv.one_builder, total-set builds s.threads i v at);
    vacant = vac;
    emptied = emp;
    current = λ h. All-set (HasNode c.node) s.threads i v (cur h).0 (cur h).1;
    discarded =
        All-set (Discards c.closed) s.threads i v
          (subst (λ b. All (Discards b) s.threads) (sym same) inv.discarded) dis;
    conserved = omega (arith, inv.conserved, total-set owns s.threads i v at);
    promised = prom;
    awaited =
        All-set (IsPromised announced (set s.threads i v)) s.threads i v
          (All-map s.threads
            (IsPromised-mono s.announced announced s.threads (set s.threads i v) grow (λ q.
              elim (keep q) [
                | inl k ↦ inl k
                | inr k ↦ inr (omega (arith, total-set (carries q) s.threads i v at))
              ]))
            inv.awaited)
          fits;
  }

contains_cons : (p q : ℕ) (ps : List ℕ) → contains q ps ≡ true → contains q (p ∷ ps) ≡ true
unfolding contains
contains_cons p q ps h = ground arith

contains_self : (p : ℕ) (ps : List ℕ) → contains p (p ∷ ps) ≡ true
unfolding contains
contains_self p ps = ground arith

Promised-set :
    (ts : List Phase) (i : ℕ) (x v : Phase) (o : Option ℕ)
    → get_elem? ts i ≡ some x
    → ((q : ℕ) → claims q x ≤ claims q v)
    → Promised ts o
    → Promised (set ts i v) o
Promised-set ts i x v none at keep h = tt
Promised-set ts i x v (some p) at keep h = omega (arith, keep p, total-set (claims p) ts i v at)

claims-le-carries : (p : ℕ) (x : Phase) → claims p x ≤ carries p x
claims-le-carries p (building q) = omega arith
claims-le-carries p (built q r) = omega arith
claims-le-carries p wanting = omega arith
claims-le-carries p _ = omega arith

announced_or :
    (p q : ℕ) (ps : List ℕ) (w : ℕ) → (contains q (p ∷ ps) ≡ true) ⊎ ((if p == q then 1 else 0) ≤ w)
unfolding contains
announced_or p q ps w = ground arith

-- The steps that leave the node, `closed` and `starting` alone.
module _ (s : System) (inv : Inv s) (i : ℕ) (x v : Phase) (at : get_elem? s.threads i ≡ some x)
    (c : Client) (announced : List ℕ) (next_node : ℕ) (torn redials : List ℕ)
    (frame : Frame s.client c) (same : c.starting ≡ s.client.starting) where
  pub steady-Inv :
      c.inflight + uses x ≡ s.client.inflight + uses v
      → builds x ≡ builds v
      → (s.client.closed ≡ false → HasNode s.client.node v)
      → Discards s.client.closed v
      → next_node + owns x + length s.torn ≡ s.next_node + owns v + length torn
      → ((q : ℕ) → claims q x ≤ claims q v)
      → ((q : ℕ) → contains q s.announced ≡ true → contains q announced ≡ true)
      → ((q : ℕ) → (contains q announced ≡ true) ⊎ (carries q x ≤ carries q v))
      → IsPromised announced (set s.threads i v) v
      → Inv (after s inv i x v at c announced next_node torn redials)
  steady-Inv cn bn has dis cons claim' grow keep fits =
      move-Inv s inv i x v at c announced next_node torn redials cn (rw (same, bn) refl)
        (λ h. frame.same_node ∙ inv.vacant (rw (← same) h))
        (λ h. frame.same_node ∙ inv.emptied (sym frame.same_closed ∙ h))
        (λ h.
          let open' = sym frame.same_closed ∙ h in
          (rw frame.same_node (inv.current open'), rw frame.same_node (has open')))
        frame.same_closed (rw frame.same_closed dis) (rw frame.same_node (omega arith))
        (rw same (Promised-set s.threads i x v s.client.starting at claim' inv.promised)) grow keep
        fits

pub reflexive : (c : Client) → Frame c c
reflexive c = record { same_node = refl; same_closed = refl; same_retired = refl; same_idle = refl }

module _ (s : System) (inv : Inv s) (i : ℕ) where
  pub entered-Inv :
      (r : Client × Entry)
      → get_elem? s.threads i ≡ some wanting
      → Entered s.client r
      → let m = entered s r in Inv (record m.0 { threads = set s.threads i m.1 })
  entered-Inv (c, refused) at (h, e) =
      steady-Inv s inv i wanting (finished (some closed)) at c s.announced s.next_node s.torn
        s.redials (rw e (reflexive s.client)) (rw e) (rw e) refl (λ _. tt) tt refl
        (λ q. omega arith) (λ q k. k) (λ q. inr (omega arith)) tt
  entered-Inv (c, reuse n) at (h, e, k) =
      steady-Inv s inv i wanting (holding n) at c s.announced s.next_node s.torn (n ∷ s.redials)
        k.frame k.same_starting (omega (arith, k.raised)) refl (λ _. e) tt refl (λ q. omega arith)
        (λ q k. k) (λ q. inr (omega arith)) tt
  entered-Inv (c, await p) at (h, e, f, k) =
      steady-Inv s inv i wanting (waiting p) at c s.announced s.next_node s.torn s.redials k.frame
        k.same_starting (omega (arith, k.raised)) refl (λ _. tt) tt refl (λ q. omega arith)
        (λ q k. k) (λ q. inr (omega arith))
        (inr (
          omega (
            arith,
            total-set (carries p) s.threads i (waiting p) at,
            total_mono (claims p) (carries p) s.threads (claims-le-carries p),
            subst (Promised s.threads) f inv.promised,
          )))
  entered-Inv (c, claim p) at (h, e, f, g, k, t, fr, l) =
      move-Inv s inv i wanting (building p) at c s.announced s.next_node s.torn s.redials
        (omega (arith, k)) (rw (g, f) refl) (λ _. fr.same_node ∙ e) (λ _. fr.same_node ∙ e)
        (λ h. (rw fr.same_node (inv.current (sym fr.same_closed ∙ h)), tt)) fr.same_closed tt
        (rw fr.same_node refl)
        (rw g (ground (arith, total-set (claims p) s.threads i (building p) at))) (λ q k. k)
        (λ q. inr (omega arith)) tt

  weight_cases : (o : Option ℕ) → 0 < weight o → (weight o ≡ 1) × (is_some o ≡ true)
  weight_cases none h = absurd (omega arith)
  weight_cases (some p) h = (refl, refl)

  -- While a goroutine builds, the client has no node.
  builder-lem :
      (x : Phase)
      → get_elem? s.threads i ≡ some x
      → builds x ≡ 1
      → (weight s.client.starting ≡ 1) × (s.client.node ≡ none)
  builder-lem x at h =
      let (one, present) =
        weight_cases s.client.starting
          (omega (arith, inv.one_builder, get_elem?-le-total builds s.threads i at)) in
      (one, inv.vacant present)

  pub settled-Inv :
      (p : ℕ) (r : Result ℕ) (m : Client × Bool)
      → get_elem? s.threads i ≡ some (built p r)
      → Settled s.client r m
      → Inv (record s { client = m.0; threads = set s.threads i (settled p r m.1) })
  settled-Inv p (ok n) (c, false) at (b, st, k, cl, t, kept, given) =
      let (one, vacant) = builder-lem (built p (ok n)) at refl in
      let stored = given (sym b) in
      move-Inv s inv i (built p (ok n)) (settled p (ok n) false) at c s.announced s.next_node s.torn
        s.redials (omega (arith, k)) (rw st (omega (arith, one))) (rw st (λ h. cc))
        (λ h. cc (h, cl, b))
        (λ _.
          (All-map s.threads (HasNode-none c.node) (rw vacant at (inv.current (sym b))), stored))
        cl tt (rw (stored, vacant) (omega arith)) (rw st tt) (λ q k. k) (λ q. inr (omega arith)) tt
  settled-Inv p (ok n) (c, true) at (b, st, k, cl, t, kept, given) =
      let (one, vacant) = builder-lem (built p (ok n)) at refl in
      let same = kept (sym b) in
      move-Inv s inv i (built p (ok n)) (settled p (ok n) true) at c s.announced s.next_node s.torn
        s.redials (omega (arith, k)) (rw st (omega (arith, one))) (rw st (λ h. cc))
        (λ _. same ∙ vacant) (λ h. cc (h, cl, b)) cl (cl ∙ sym b) (rw same (omega arith)) (rw st tt)
        (λ q k. k) (λ q. inr (omega arith)) tt
  settled-Inv p (err e) (c, b) at (sm, st, k, cl, t, same) =
      let (one, vacant) = builder-lem (built p (err e)) at refl in
      move-Inv s inv i (built p (err e)) (settled p (err e) b) at c s.announced s.next_node s.torn
        s.redials (omega (arith, k)) (rw st (omega (arith, one))) (rw st (λ h. cc))
        (λ _. same ∙ vacant) (λ h. (rw same (inv.current (sym cl ∙ h)), tt)) cl
        (err_discards b (cl ∙ sym sm)) (rw same (omega arith)) (rw st tt) (λ q k. k)
        (λ q. inr (omega arith)) tt
    where
      err_discards : (d : Bool) → c.closed ≡ d → Discards c.closed (settled p (err e) d)
      err_discards true h = h
      err_discards false h = tt

  pub announced-Inv :
      (p : ℕ) (r : Result ℕ) (b : Bool)
      → get_elem? s.threads i ≡ some (settled p r b)
      → Inv (record s { announced = p ∷ s.announced; threads = set s.threads i (outcome r b) })
  announced-Inv p (err e) b at =
      steady-Inv s inv i (settled p (err e) b) (leaving (some e)) at s.client (p ∷ s.announced)
        s.next_node s.torn s.redials (reflexive s.client) refl refl refl (λ _. tt) tt (omega arith)
        (λ q. omega arith) (λ q. contains_cons p q s.announced)
        (λ q. announced_or p q s.announced 0) tt
  announced-Inv p (ok n) true at =
      steady-Inv s inv i (settled p (ok n) true) (discarding n) at s.client (p ∷ s.announced)
        s.next_node s.torn s.redials (reflexive s.client) refl refl refl (λ _. tt)
        (All-get_elem? (Discards s.client.closed) s.threads i inv.discarded at) refl
        (λ q. omega arith) (λ q. contains_cons p q s.announced)
        (λ q. announced_or p q s.announced 0) tt
  announced-Inv p (ok n) false at =
      steady-Inv s inv i (settled p (ok n) false) (holding n) at s.client (p ∷ s.announced)
        s.next_node s.torn s.redials (reflexive s.client) refl refl refl
        (λ h. All-get_elem? (HasNode s.client.node) s.threads i (inv.current h) at) tt refl
        (λ q. omega arith) (λ q. contains_cons p q s.announced)
        (λ q. announced_or p q s.announced 0) tt
