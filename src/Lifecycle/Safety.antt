-- ===== src/Lifecycle/Safety.antt =====
-- client/client.go: what the interleavings of `acquire`, `release`, `closeIdle` and `Close`
-- guarantee for a Client that started out of `New`.
use ipfs_mobile.Prelude.{
  ℕ, ◌≡◌, ◌≤◌, ◌<◌, refl, true, false, Option, none, some, List, [], arith, ◌⊎◌, inl, inr, ap,
}
use ipfs_mobile.Prelude.Int.{ℤ}
use ipfs_mobile.Prelude.Lists.{length, total, get_elem?, All-get_elem?, total-pos, total_mono}
use ipfs_mobile.Errors.{ok, err}
use ipfs_mobile.Lifecycle.{Client, close_idle}
use ipfs_mobile.Lifecycle.Sections.{Swept, close_idle-Swept}
use ipfs_mobile.Lifecycle.System.{
  System, Phase, Action, built, discarding, waiting, holding, settled, contains, run, initial,
}
use ipfs_mobile.Lifecycle.Invariant.{Inv, uses, builds, owns, carries, HasNode, IsPromised, weight}
use ipfs_mobile.Lifecycle.Preserved.{run-Inv}

initial-Inv : (idle : ℤ) → Inv (initial idle)
unfolding initial
initial-Inv idle = record {
  counted = refl;
  one_builder = refl;
  vacant = λ h. refl;
  emptied = λ h. refl;
  current = λ h. tt;
  discarded = tt;
  conserved = refl;
  promised = tt;
  awaited = tt;
}

reached-Inv : (idle : ℤ) (as' : List Action) → Inv (run (initial idle) as')
reached-Inv idle as' = run-Inv (initial idle) as' (initial-Inv idle)

weight-le : (o : Option ℕ) → weight o ≤ 1
weight-le none = omega arith
weight-le (some n) = omega arith

owns-le-uses : (x : Phase) → owns x ≤ uses x
owns-le-uses (built p (ok n)) = omega arith
owns-le-uses (built p (err e)) = omega arith
owns-le-uses (settled p (ok n) true) = omega arith
owns-le-uses (settled p (ok n) false) = omega arith
owns-le-uses (settled p (err e) b) = omega arith
owns-le-uses (discarding n) = omega arith
owns-le-uses _ = omega arith

module _ (idle : ℤ) (history : List Action) where
  abbrev reached : System
  reached = run (initial idle) history

  -- In every state that any interleaving of downloads, idle callbacks and Close reaches, inflight
  -- is the number of goroutines between entering the client and release, and at most one goroutine
  -- is building a node.
  pub inflight-exact :
      (reached.client.inflight ≡ total uses reached.threads) × (total builds reached.threads ≤ 1)
  inflight-exact =
      let inv = reached-Inv idle history in
      (inv.counted, omega (arith, inv.one_builder, weight-le reached.client.starting))

  -- In every reached state of an open client, a download that has been given a node has the node
  -- that the client refers to.
  pub holding-current :
      (i n : ℕ)
      → get_elem? reached.threads i ≡ some (holding n)
      → reached.client.closed ≡ false
      → reached.client.node ≡ some n
  holding-current i n at open' =
      All-get_elem? (HasNode reached.client.node) reached.threads i
        ((reached-Inv idle history).current open') at

  kept_while_used :
      (r : Client × Option ℕ)
      → Swept reached.client r
      → 0 < total uses reached.threads
      → (r.0 ≡ reached.client) × (r.1 ≡ none)
  kept_while_used (d, none) (same, why) h = (same, refl)
  kept_while_used (d, some n) (open', idle', has, e) h =
      absurd (omega (arith, (reached-Inv idle history).counted))

  -- In every reached state in which some goroutine is between entering the client and release,
  -- closeIdle changes nothing and takes no node.
  pub close_idle-used :
      0 < total uses reached.threads
      → (close_idle reached.client).0 ≡ reached.client × (close_idle reached.client).1 ≡ none
  close_idle-used h =
      kept_while_used (close_idle reached.client) (close_idle-Swept reached.client) h

  -- In every reached state of a closed client with no goroutine inside and no taken node left to
  -- close, as many nodes have been closed as were ever started.
  pub closed-torn :
      reached.client.closed ≡ true
      → total uses reached.threads ≡ 0
      → reached.doomed ≡ []
      → length reached.torn ≡ reached.next_node
  closed-torn cl quiet done =
      let inv = reached-Inv idle history in
      omega (
        arith,
        inv.conserved,
        ap length done,
        ap weight (inv.emptied cl),
        total_mono owns uses reached.threads owns-le-uses,
      )

  -- In every reached state, a goroutine that waits on a pending channel waits on one that is
  -- closed already, or some goroutine stands between claiming that channel and closing it.
  pub waiting-promised :
      (i p : ℕ)
      → get_elem? reached.threads i ≡ some (waiting p)
      → (contains p reached.announced ≡ true)
        ⊎ ((j : ℕ) × (x : Phase) × (get_elem? reached.threads j ≡ some x) × (0 < carries p x))
  waiting-promised i p at =
      elim (All-get_elem? (IsPromised reached.announced reached.threads) reached.threads i
        (reached-Inv idle history).awaited at) [
          | inl done ↦ inl done
          | inr more ↦ inr (total-pos (carries p) reached.threads more)
        ]
