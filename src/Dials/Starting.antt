-- ===== src/Dials/Starting.antt =====
-- client/node.go: when `startNode` hands a node back and when it refuses to, and an answer that it
-- does not see.
use ipfs_mobile.Prelude.{
  ℕ, ◌+◌, ◌≡◌, ◌≤◌, ◌<◌, refl, Bool, true, false, some, List, [], ◌∷◌, arith, subst,
}
use ipfs_mobile.Prelude.Tests.{if◌then◌else◌}
use ipfs_mobile.Prelude.Lists.{get_elem?, set, total, total_mono, get_elem?-set_self, set-set}
use ipfs_mobile.Dials.{
  Dial, dialling, counted, over, Group, all_over, answers, proceeds, settles, dial_step, reachable,
  indexed, pending, Starter, awaiting, counting_gateways, counting_peers, finishing_gateways,
  finishing_peers, started, refused, Start, start_step, Action, peer, advance, step, run, initial,
}
use ipfs_mobile.Dials.Invariant.{answer, told, running, GroupInv, Inv, Known, run-Inv, initial-Inv}

-- A node is handed back as reachable where a target has answered, and as indexed where there is a
-- router of an indexer. It is refused where there is none and every dial is over.
abbrev pub Justified : Start → Starter → Type 0
Justified s (started reachable) = 0 < total answer (s.gateways).dials + total answer (s.peers).dials
Justified s (started indexed) = s.delegated ≡ true
Justified s refused =
    (s.delegated ≡ false)
    × (total running (s.gateways).dials ≡ 0)
    × (total running (s.peers).dials ≡ 0)
Justified s _ = Unit {0}

Inv-Justified : (s : Start) (x : Starter) → Inv s → s.starter ≡ x → Justified s x
Inv-Justified s x inv e = go x (subst (Known s.gateways s.peers s.delegated) e inv.known)
  where
    go : (x : Starter) → Known s.gateways s.peers s.delegated x → Justified s x
    go (started reachable) k = omega (arith, k, inv.of_gateways.exact, inv.of_peers.exact)
    go (started indexed) k = k
    go (started pending) k = tt
    go refused (none_indexed, g, p) = (
      none_indexed,
      ground (arith, inv.of_gateways.settled),
      ground (arith, inv.of_peers.settled),
    )
    go awaiting k = tt
    go counting_gateways k = tt
    go counting_peers k = tt
    go finishing_gateways k = tt
    go finishing_peers k = tt

-- However the dials of startNode go, where it hands a node back for its counts a peer or gateway
-- has answered, where it does so for its indexer there is one, and where it refuses there is none
-- and every dial is over.
pub run-Justified :
    (gateways peers : ℕ) (delegated : Bool) (history : List Action)
    → let s = run (initial gateways peers delegated) history in Justified s s.starter
run-Justified gateways peers delegated history =
    Inv-Justified (run (initial gateways peers delegated) history) _
      (run-Inv (initial gateways peers delegated) history (initial-Inv gateways peers delegated))
      refl

-- `finished` and the count of a group agree with its dials: what has been counted has answered,
-- `first` is closed only after that, and `done` only after the last dial.
abbrev pub Truthful : Group → Type 0
Truthful g =
    (g.connected ≡ total answer g.dials)
    × ((if g.first then 1 else 0) ≤ g.connected)
    × ((if g.done then total running g.dials else 0) ≡ 0)

GroupInv-Truthful : (g : Group) → GroupInv g → Truthful g
GroupInv-Truthful g inv = (
  inv.exact,
  omega (arith, inv.exact, inv.first_told, total_mono told answer g.dials told-le-answer),
  inv.settled,
)
  where
    told-le-answer : (d : Dial) → told d ≤ answer d
    told-le-answer dialling = omega arith
    told-le-answer counted = omega arith
    told-le-answer (over b) = omega arith

-- In every reached state, the counter of each of the two groups is the number of its targets that
-- have answered, first is closed only if one has, and done only if no dial is running.
pub groups-Truthful :
    (gateways peers : ℕ) (delegated : Bool) (history : List Action)
    → let s = run (initial gateways peers delegated) history in
      Truthful s.gateways × Truthful s.peers
groups-Truthful gateways peers delegated history =
    let inv =
      run-Inv (initial gateways peers delegated) history (initial-Inv gateways peers delegated) in
    (GroupInv-Truthful _ inv.of_gateways, GroupInv-Truthful _ inv.of_peers)

module _ (g : Group) (i : ℕ) (here : get_elem? g.dials i ≡ some dialling)
    (rest : all_over (set g.dials i (over true)) ≡ true) where
  -- The last dial of a group answers, and the group settles.
  last_answer :
      let h = dial_step (dial_step (dial_step g (answers i)) (proceeds i)) settles in
      (h.done ≡ true) × (h.connected ≡ g.connected + 1)
  unfolding dial_step
  last_answer =
      rw
        (
          here,
          get_elem?-set_self g.dials i counted here,
          set-set g.dials i counted (over true),
          rest,
        )
        (refl, refl)

-- Where startNode has read both counts as 0, the gateways have settled and one last dial of a peer
-- is running, the peer's answer is lost if it comes now: startNode refuses, though a peer is
-- connected.
pub start_loses_answer :
    (s : Start) (i : ℕ)
    → s.starter ≡ finishing_gateways
    → (s.gateways).done ≡ true
    → get_elem? (s.peers).dials i ≡ some dialling
    → all_over (set (s.peers).dials i (over true)) ≡ true
    → let t =
        run s (peer (answers i) ∷ peer (proceeds i) ∷ peer settles ∷ advance ∷ advance ∷ []) in
      (t.starter ≡ refused) × (0 < (t.peers).connected)
unfolding run step start_step
start_loses_answer s i at settled here rest =
    rw (at, settled, (last_answer s.peers i here rest).0, (last_answer s.peers i here rest).1)
      (refl, omega arith)
