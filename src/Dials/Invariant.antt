-- ===== src/Dials/Invariant.antt =====
-- client/node.go: what holds of a group of dials, and of `startNode`, between any two steps.
use ipfs_mobile.Prelude.{
  ℕ, zero, suc, ◌+◌, ◌≡◌, ◌≤◌, ◌<◌, refl, Bool, true, false, inl, inr, Option, none, some, List, [],
  ◌∷◌, arith,
}
use ipfs_mobile.Prelude.Tests.{if◌then◌else◌, Bool-cases}
use ipfs_mobile.Prelude.Lists.{get_elem?, total, total-set}
use ipfs_mobile.Dials.{
  Dial, dialling, counted, over, Group, fresh_dials, dial_all, all_over, DialEvent, answers, fails,
  proceeds, settles, answered, failed, proceeded, dial_step, reachable, indexed, pending, Starter,
  awaiting, counting_gateways, counting_peers, finishing_gateways, finishing_peers, started,
  refused, Start, can_wake, start_step, Action, gateway, peer, wake, advance, woken, step, run,
  initial,
}

-- Whether the target has answered, whether the goroutine has closed `first` if it had to, and
-- whether it still runs.
abbrev pub answer : Dial → ℕ
answer dialling = 0
answer counted = 1
answer (over b) = if b then 1 else 0

abbrev pub told : Dial → ℕ
told (over b) = if b then 1 else 0
told _ = 0

abbrev pub running : Dial → ℕ
running (over b) = 0
running _ = 1

pub record GroupInv (g : Group) : Type 0 where
  pub exact : g.connected ≡ total answer g.dials
  pub first_told : (if g.first then 1 else 0) ≤ total told g.dials
  pub told_first : (if g.first then 0 else total told g.dials) ≡ 0
  pub settled : (if g.done then total running g.dials else 0) ≡ 0

pub all_over-running : (ds : List Dial) → all_over ds ≡ true → total running ds ≡ 0
unfolding all_over
all_over-running [] h = refl
all_over-running (over b ∷ ds) h = omega (arith, all_over-running ds h)
all_over-running (dialling ∷ ds) h = cc
all_over-running (counted ∷ ds) h = cc

-- No goroutine at that place has stopped where `done` is closed.
module _ (g : Group) (inv : GroupInv g) (i : ℕ) where
  answered-GroupInv : (o : Option Dial) → get_elem? g.dials i ≡ o → GroupInv (answered g i o)
  answered-GroupInv (some dialling) h = ground (
    arith,
    total-set answer g.dials i counted h,
    total-set told g.dials i counted h,
    total-set running g.dials i counted h,
    inv.exact,
    inv.first_told,
    inv.told_first,
    inv.settled,
  )
  answered-GroupInv (some counted) h = inv
  answered-GroupInv (some (over b)) h = inv
  answered-GroupInv none h = inv

  failed-GroupInv : (o : Option Dial) → get_elem? g.dials i ≡ o → GroupInv (failed g i o)
  failed-GroupInv (some dialling) h = ground (
    arith,
    total-set answer g.dials i (over false) h,
    total-set told g.dials i (over false) h,
    total-set running g.dials i (over false) h,
    inv.exact,
    inv.first_told,
    inv.told_first,
    inv.settled,
  )
  failed-GroupInv (some counted) h = inv
  failed-GroupInv (some (over b)) h = inv
  failed-GroupInv none h = inv

  proceeded-GroupInv : (o : Option Dial) → get_elem? g.dials i ≡ o → GroupInv (proceeded g i o)
  proceeded-GroupInv (some counted) h = ground (
    arith,
    total-set answer g.dials i (over true) h,
    total-set told g.dials i (over true) h,
    total-set running g.dials i (over true) h,
    inv.exact,
    inv.first_told,
    inv.told_first,
    inv.settled,
  )
  proceeded-GroupInv (some dialling) h = inv
  proceeded-GroupInv (some (over b)) h = inv
  proceeded-GroupInv none h = inv

pub dial_step-GroupInv : (g : Group) (e : DialEvent) → GroupInv g → GroupInv (dial_step g e)
unfolding dial_step
dial_step-GroupInv g (answers i) inv = answered-GroupInv g inv i (get_elem? g.dials i) refl
dial_step-GroupInv g (fails i) inv = failed-GroupInv g inv i (get_elem? g.dials i) refl
dial_step-GroupInv g (proceeds i) inv = proceeded-GroupInv g inv i (get_elem? g.dials i) refl
dial_step-GroupInv g settles inv = elim (Bool-cases (all_over g.dials)) [
  | inl h ↦ rw h (record {
    exact = inv.exact;
    first_told = inv.first_told;
    told_first = inv.told_first;
    settled = all_over-running g.dials h;
  })
  | inr h ↦ rw h inv
]

total_fresh :
    (n : ℕ)
    → (total answer (fresh_dials n) ≡ 0)
      × (total told (fresh_dials n) ≡ 0)
      × (total running (fresh_dials n) ≡ n)
unfolding fresh_dials
total_fresh zero = (refl, refl, refl)
total_fresh (suc n) = omega (arith, total_fresh n)

pub dial_all-GroupInv : (n : ℕ) → GroupInv (dial_all n)
unfolding dial_all
dial_all-GroupInv n = ground (arith, total_fresh n)

-- Counting goes up, and a closed channel stays closed.
abbrev pub Grows : Group → Group → Type 0
Grows g h = (g.connected ≤ h.connected) × (g.done ≡ true → h.done ≡ true)

answered-Grows : (g : Group) (i : ℕ) (o : Option Dial) → Grows g (answered g i o)
answered-Grows g i (some dialling) = (omega arith, λ h. h)
answered-Grows g i (some counted) = (omega arith, λ h. h)
answered-Grows g i (some (over b)) = (omega arith, λ h. h)
answered-Grows g i none = (omega arith, λ h. h)

failed-Grows : (g : Group) (i : ℕ) (o : Option Dial) → Grows g (failed g i o)
failed-Grows g i (some dialling) = (omega arith, λ h. h)
failed-Grows g i (some counted) = (omega arith, λ h. h)
failed-Grows g i (some (over b)) = (omega arith, λ h. h)
failed-Grows g i none = (omega arith, λ h. h)

proceeded-Grows : (g : Group) (i : ℕ) (o : Option Dial) → Grows g (proceeded g i o)
proceeded-Grows g i (some counted) = (omega arith, λ h. h)
proceeded-Grows g i (some dialling) = (omega arith, λ h. h)
proceeded-Grows g i (some (over b)) = (omega arith, λ h. h)
proceeded-Grows g i none = (omega arith, λ h. h)

dial_step-Grows : (g : Group) (e : DialEvent) → Grows g (dial_step g e)
unfolding dial_step
dial_step-Grows g (answers i) = answered-Grows g i (get_elem? g.dials i)
dial_step-Grows g (fails i) = failed-Grows g i (get_elem? g.dials i)
dial_step-Grows g (proceeds i) = proceeded-Grows g i (get_elem? g.dials i)
dial_step-Grows g settles = elim (Bool-cases (all_over g.dials)) [
  | inl h ↦ rw h (omega arith, λ k. refl)
  | inr h ↦ rw h (omega arith, λ k. k)
]

-- What `startNode` knows where it stands.
abbrev pub Known : Group → Group → Bool → Starter → Type 0
Known g p d (started reachable) = 0 < g.connected + p.connected
Known g p d (started indexed) = d ≡ true
Known g p d finishing_gateways = d ≡ false
Known g p d finishing_peers = (d ≡ false) × (g.done ≡ true)
Known g p d refused = (d ≡ false) × (g.done ≡ true) × (p.done ≡ true)
Known g p d _ = Unit {0}

Known-grows :
    (g g' p p' : Group) (d : Bool) (x : Starter)
    → Grows g g'
    → Grows p p'
    → Known g p d x
    → Known g' p' d x
Known-grows g g' p p' d (started reachable) (u, _) (v, _) k = omega arith
Known-grows g g' p p' d (started indexed) u v k = k
Known-grows g g' p p' d (started pending) u v k = tt
Known-grows g g' p p' d finishing_gateways u v k = k
Known-grows g g' p p' d finishing_peers (_, u) v (k, l) = (k, u l)
Known-grows g g' p p' d refused (_, u) (_, v) (k, l, m) = (k, u l, v m)
Known-grows g g' p p' d awaiting u v k = tt
Known-grows g g' p p' d counting_gateways u v k = tt
Known-grows g g' p p' d counting_peers u v k = tt

pub record Inv (s : Start) : Type 0 where
  pub of_gateways : GroupInv s.gateways
  pub of_peers : GroupInv s.peers
  pub known : Known s.gateways s.peers s.delegated s.starter

woken-Known :
    (s : Start) (b : Bool) (x : Starter)
    → Known s.gateways s.peers s.delegated x
    → Known s.gateways s.peers s.delegated (woken s b x)
woken-Known s true awaiting k = tt
woken-Known s false awaiting k = tt
woken-Known s b x k = k

start_step-Known :
    (s : Start) (x : Starter)
    → Known s.gateways s.peers s.delegated x
    → Known s.gateways s.peers s.delegated (start_step s x)
unfolding start_step
start_step-Known s counting_gateways k = ground arith
start_step-Known s counting_peers k = ground arith
start_step-Known s finishing_gateways k = ground arith
start_step-Known s finishing_peers k = ground arith
start_step-Known s awaiting k = k
start_step-Known s (started r) k = k
start_step-Known s refused k = k

step-Inv : (s : Start) (a : Action) → Inv s → Inv (step s a)
unfolding step
step-Inv s (gateway e) inv = record {
  of_gateways = dial_step-GroupInv s.gateways e inv.of_gateways;
  of_peers = inv.of_peers;
  known =
      Known-grows s.gateways (dial_step s.gateways e) s.peers s.peers s.delegated s.starter
        (dial_step-Grows s.gateways e) (omega arith, λ h. h) inv.known;
}
step-Inv s (peer e) inv = record {
  of_gateways = inv.of_gateways;
  of_peers = dial_step-GroupInv s.peers e inv.of_peers;
  known =
      Known-grows s.gateways s.gateways s.peers (dial_step s.peers e) s.delegated s.starter
        (omega arith, λ h. h) (dial_step-Grows s.peers e) inv.known;
}
step-Inv s (wake w) inv = record {
  of_gateways = inv.of_gateways;
  of_peers = inv.of_peers;
  known = woken-Known s (can_wake s w) s.starter inv.known;
}
step-Inv s advance inv = record {
  of_gateways = inv.of_gateways;
  of_peers = inv.of_peers;
  known = start_step-Known s s.starter inv.known;
}

pub run-Inv : (s : Start) (as' : List Action) → Inv s → Inv (run s as')
unfolding run
run-Inv s [] inv = inv
run-Inv s (a ∷ as') inv = run-Inv (step s a) as' (step-Inv s a inv)

pub initial-Inv : (gateways peers : ℕ) (delegated : Bool) → Inv (initial gateways peers delegated)
unfolding initial
initial-Inv gateways peers delegated = record {
  of_gateways = dial_all-GroupInv gateways;
  of_peers = dial_all-GroupInv peers;
  known = tt;
}
