-- ===== src/Lifecycle/Preserved.antt =====
-- client/client.go: every step keeps the invariant, whatever the interleaving.
use ipfs_mobile.Prelude.{
  subst, sym, ◌∙◌, ap, ◌-◌, ℕ, ◌+◌, ◌≡◌, ◌≤◌, refl, Bool, true, false, Option, none, some, List, [],
  ◌∷◌, arith, inl, inr,
}
use ipfs_mobile.Prelude.Tests.{ltb, if◌then◌else◌}
use ipfs_mobile.Prelude.Lists.{length, total, set, get_elem?, All, All-map, get_elem?-le-total}
use ipfs_mobile.Errors.{ok, err, closed, Error, context_error}
use ipfs_mobile.Lifecycle.{Client, enter, settle, release, close_idle, close}
use ipfs_mobile.Lifecycle.Sections.{
  enter-Entered, settle-Settled, release-Released, Swept, close_idle-Swept, IsShut, close-IsShut,
}
use ipfs_mobile.Lifecycle.System.{
  System, Phase, wanting, waiting, building, built, settled, discarding, holding, leaving, finished,
  contains, Event, proceed, start_returns, context_ends, download_returns, advance, step, Action,
  spawn, act, fire, sweep, shut, tear, run, moved, act_at, fired, taken, torn_down, doom,
}
use ipfs_mobile.Lifecycle.Invariant.{
  Inv, uses, builds, owns, carries, claims, HasNode, Discards, IsPromised, Promised, weight,
}
use ipfs_mobile.Lifecycle.Moves.{
  entered-Inv, settled-Inv, announced-Inv, steady-Inv, reflexive, All-HasNode_unused,
  IsPromised-mono,
}

module _ (s : System) (inv : Inv s) (i : ℕ) where
  -- A step of a goroutine that touches neither the client nor a channel.
  plain-Inv :
      (x v : Phase) (next_node : ℕ) (torn : List ℕ)
      → get_elem? s.threads i ≡ some x
      → uses x ≡ uses v
      → builds x ≡ builds v
      → HasNode s.client.node v
      → Discards s.client.closed v
      → next_node + owns x + length s.torn ≡ s.next_node + owns v + length torn
      → ((q : ℕ) → carries q x ≤ carries q v)
      → ((q : ℕ) → claims q x ≤ claims q v)
      → IsPromised s.announced (set s.threads i v) v
      → Inv (record s { next_node = next_node; torn = torn; threads = set s.threads i v })
  plain-Inv x v next_node torn at u b has dis cons carry claim fits =
      steady-Inv s inv i x v at s.client s.announced next_node torn s.redials (reflexive s.client)
        refl (rw u refl) b (λ _. has) dis cons claim (λ q k. k) (λ q. inr (carry q)) fits

  release-Inv :
      (e : Option Error)
      → get_elem? s.threads i ≡ some (leaving e)
      → Inv (record s { client = release s.client; threads = set s.threads i (finished e) })
  release-Inv e at =
      let r = release-Released s.client in
      steady-Inv s inv i (leaving e) (finished e) at (release s.client) s.announced s.next_node
        s.torn s.redials r.frame r.same_starting
        (omega (arith, r.lowered, inv.counted, get_elem?-le-total uses s.threads i at)) refl
        (λ _. tt) tt refl (λ q. omega arith) (λ q k. k) (λ q. inr (omega arith)) tt

  wake-Inv :
      (p : ℕ) (b : Bool)
      → get_elem? s.threads i ≡ some (waiting p)
      → Inv (moved s i (if b then some (s, wanting) else none))
  wake-Inv p true at =
      plain-Inv (waiting p) wanting s.next_node s.torn at refl refl tt tt refl (λ q. omega arith)
        (λ q. omega arith) tt
  wake-Inv p false at = inv

  advance-Inv :
      (x : Phase) (e : Event) → get_elem? s.threads i ≡ some x → Inv (moved s i (advance s x e))
  unfolding advance
  advance-Inv wanting proceed at = entered-Inv s inv i (enter s.client) at (enter-Entered s.client)
  advance-Inv (waiting p) proceed at = wake-Inv p (contains p s.announced) at
  advance-Inv (waiting p) (context_ends c) at =
      plain-Inv (waiting p) (finished (some (context_error c))) s.next_node s.torn at refl refl tt
        tt refl (λ q. omega arith) (λ q. omega arith) tt
  advance-Inv (building p) (start_returns none) at =
      plain-Inv (building p) (built p (ok s.next_node)) (s.next_node + 1) s.torn at refl refl tt tt
        (omega arith) (λ q. omega arith) (λ q. omega arith) tt
  advance-Inv (building p) (start_returns (some e)) at =
      plain-Inv (building p) (built p (err e)) s.next_node s.torn at refl refl tt tt refl
        (λ q. omega arith) (λ q. omega arith) tt
  advance-Inv (built p r) proceed at =
      settled-Inv s inv i p r (settle s.client r) at (settle-Settled s.client r)
  advance-Inv (settled p r b) proceed at = announced-Inv s inv i p r b at
  advance-Inv (discarding n) proceed at =
      plain-Inv (discarding n) (leaving (some closed)) s.next_node (n ∷ s.torn) at refl refl tt tt
        (omega arith) (λ q. omega arith) (λ q. omega arith) tt
  advance-Inv (holding n) (download_returns e) at =
      plain-Inv (holding n) (leaving e) s.next_node s.torn at refl refl tt tt refl
        (λ q. omega arith) (λ q. omega arith) tt
  advance-Inv (leaving e) proceed at = release-Inv e at
  advance-Inv _ _ at = inv

  act-Inv : (e : Event) (o : Option Phase) → get_elem? s.threads i ≡ o → Inv (act_at s i o e)
  act-Inv e none at = inv
  act-Inv e (some x) at = advance-Inv x e at

-- Taking the node out of a client that no goroutine uses, or that is now closed.
module _ (s : System) (inv : Inv s) where
  spawn-Inv : Inv (record s { threads = wanting ∷ s.threads })
  spawn-Inv = record {
    counted = omega (arith, inv.counted);
    one_builder = omega (arith, inv.one_builder);
    vacant = inv.vacant;
    emptied = inv.emptied;
    current = λ h. (tt, inv.current h);
    discarded = (tt, inv.discarded);
    conserved = omega (arith, inv.conserved);
    promised = Promised_spawn s.client.starting inv.promised;
    awaited = (
      tt,
      All-map s.threads
          (IsPromised-mono s.announced s.announced s.threads (wanting ∷ s.threads) (λ q h. h)
            (λ q. inr (omega arith)))
          inv.awaited,
    );
  }
    where
      Promised_spawn : (o : Option ℕ) → Promised s.threads o → Promised (wanting ∷ s.threads) o
      Promised_spawn none h = tt
      Promised_spawn (some p) h = omega arith

  fired-Inv : (t : Option ℕ) → Inv (fired s t)
  fired-Inv none = inv
  fired-Inv (some t) = record {
    counted = inv.counted;
    one_builder = inv.one_builder;
    vacant = inv.vacant;
    emptied = inv.emptied;
    current = inv.current;
    discarded = inv.discarded;
    conserved = inv.conserved;
    promised = inv.promised;
    awaited = inv.awaited;
  }

  tear-Inv : (ds : List ℕ) → s.doomed ≡ ds → Inv (torn_down s ds)
  tear-Inv [] h = inv
  tear-Inv (n ∷ ds) h = record {
    counted = inv.counted;
    one_builder = inv.one_builder;
    vacant = inv.vacant;
    emptied = inv.emptied;
    current = inv.current;
    discarded = inv.discarded;
    conserved = omega (arith, inv.conserved, ap length h);
    promised = inv.promised;
    awaited = inv.awaited;
  }

  -- Emptied by `closeIdle` or `Close`: the node is the next to be closed.
  taken-Inv :
      (d : Client) (k : ℕ) (o : Option ℕ)
      → o ≡ s.client.node
      → d.node ≡ none
      → d.starting ≡ s.client.starting
      → d.inflight ≡ s.client.inflight
      → (d.closed ≡ false → All (HasNode none) s.threads)
      → All (Discards d.closed) s.threads
      → Inv (taken (record s { sweeps = k }) (d, o))
  taken-Inv d k o took vac st inf cur dis = record {
    counted = inf ∙ inv.counted;
    one_builder = rw st inv.one_builder;
    vacant = λ _. vac;
    emptied = λ _. vac;
    current = rw vac cur;
    discarded = dis;
    conserved = rw vac (doomed_more o took);
    promised = rw st inv.promised;
    awaited = inv.awaited;
  }
    where
      doomed_more :
          (o : Option ℕ)
          → o ≡ s.client.node
          → s.next_node ≡ 0 + total owns s.threads + length (doom o s.doomed) + length s.torn
      doomed_more none h = omega (arith, inv.conserved, ap weight h)
      doomed_more (some n) h = omega (arith, inv.conserved, ap weight h)

  sweep-Inv :
      (r : Client × Option ℕ) (k : ℕ) → Swept s.client r → Inv (taken (record s { sweeps = k }) r)
  sweep-Inv (d, none) k (same, h) = rw same (fewer k)
    where
      fewer : (k : ℕ) → Inv (record s { sweeps = k })
      fewer k = record {
        counted = inv.counted;
        one_builder = inv.one_builder;
        vacant = inv.vacant;
        emptied = inv.emptied;
        current = inv.current;
        discarded = inv.discarded;
        conserved = inv.conserved;
        promised = inv.promised;
        awaited = inv.awaited;
      }
  sweep-Inv (d, some n) k (h, idle, has, e) = rw e (
      taken-Inv (record (s.client) { node = none; timer = none }) k (some n) (sym has) refl refl
        refl (λ _. All-HasNode_unused none s.threads (omega (arith, inv.counted))) inv.discarded)

  shut-Inv : (r : Client × Option ℕ) → IsShut s.client r → Inv (taken s r)
  shut-Inv (d, o) (inl (h, e, n)) = rw (e, n) inv
  shut-Inv (d, o) (inr (h, cl, vac, took, st, inf, t, r)) =
      taken-Inv d s.sweeps o took vac st inf (λ h. cc)
        (rw cl (
          All-map s.threads Discards_closed
            (subst (λ b. All (Discards b) s.threads) h inv.discarded)))
    where
      Discards_closed : (x : Phase) → Discards false x → Discards true x
      Discards_closed (settled p r true) h = refl
      Discards_closed (settled p r false) h = tt
      Discards_closed (discarding n) h = refl
      Discards_closed wanting h = tt
      Discards_closed _ h = tt

  sweep_if-Inv :
      (b : Bool)
      → Inv (if b then taken (record s { sweeps = s.sweeps - 1 }) (close_idle s.client) else s)
  sweep_if-Inv true = sweep-Inv (close_idle s.client) (s.sweeps - 1) (close_idle-Swept s.client)
  sweep_if-Inv false = inv

-- Every action keeps the invariant.
step-Inv : (s : System) (a : Action) → Inv s → Inv (step s a)
unfolding step
step-Inv s spawn inv = spawn-Inv s inv
step-Inv s (act i e) inv = act-Inv s inv i e (get_elem? s.threads i) refl
step-Inv s (fire i) inv = fired-Inv s inv (get_elem? s.client.scheduled i)
step-Inv s sweep inv = sweep_if-Inv s inv (ltb 0 s.sweeps)
step-Inv s shut inv = shut-Inv s inv (close s.client) (close-IsShut s.client)
step-Inv s tear inv = tear-Inv s inv s.doomed refl

-- So it holds after any history.
pub run-Inv : (s : System) (as' : List Action) → Inv s → Inv (run s as')
unfolding run
run-Inv s [] inv = inv
run-Inv s (a ∷ as') inv = run-Inv (step s a) as' (step-Inv s a inv)
