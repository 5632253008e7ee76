-- ===== src/Lifecycle/Invariant.antt =====
-- client/client.go: what holds between any two sections that take the mutex, as weights of the
-- goroutines' phases and one record.
use ipfs_mobile.Prelude.{ℕ, ◌+◌, ◌≡◌, Bool, true, false, Option, none, some, List, ◌⊎◌, ◌<◌}
use ipfs_mobile.Prelude.Tests.{◌==◌, if◌then◌else◌}
use ipfs_mobile.Prelude.Lists.{length, total, All}
use ipfs_mobile.Errors.{ok, is_some}
use ipfs_mobile.Lifecycle.System.{
  System, Phase, waiting, building, built, settled, discarding, holding, leaving, contains,
}

-- Whether a goroutine is counted by `inflight`.
abbrev pub uses : Phase → ℕ
uses (building p) = 1
uses (built p r) = 1
uses (settled p r b) = 1
uses (discarding n) = 1
uses (holding n) = 1
uses (leaving e) = 1
uses _ = 0

-- Whether it is between claiming the building of a node and recording the outcome.
abbrev pub builds : Phase → ℕ
builds (building p) = 1
builds (built p r) = 1
builds _ = 0

-- The started nodes that nothing but this goroutine refers to.
abbrev pub owns : Phase → ℕ
owns (built p (ok n)) = 1
owns (settled p (ok n) true) = 1
owns (discarding n) = 1
owns _ = 0

-- Whether it has claimed the channel `p`, and not yet recorded the outcome.
abbrev pub claims : ℕ → Phase → ℕ
claims p (building q) = if q == p then 1 else 0
claims p (built q r) = if q == p then 1 else 0
claims p _ = 0

-- Whether it is the one that is to close the pending channel `p`.
abbrev pub carries : ℕ → Phase → ℕ
carries p (building q) = if q == p then 1 else 0
carries p (built q r) = if q == p then 1 else 0
carries p (settled q r b) = if q == p then 1 else 0
carries p _ = 0

-- The node that it has been given is the client's.
abbrev pub HasNode : Option ℕ → Phase → Type 0
HasNode m (settled p (ok n) false) = m ≡ some n
HasNode m (holding n) = m ≡ some n
HasNode m _ = Unit {0}

-- Only a closed client makes it discard the node that it started.
abbrev pub Discards : Bool → Phase → Type 0
Discards b (settled p r true) = b ≡ true
Discards b (discarding n) = b ≡ true
Discards b _ = Unit {0}

-- The channel it waits on is closed, or a goroutine is about to close it.
abbrev pub IsPromised : List ℕ → List Phase → Phase → Type 0
IsPromised announced ts (waiting p) = (contains p announced ≡ true) ⊎ (0 < total (carries p) ts)
IsPromised announced ts _ = Unit {0}

abbrev pub weight {ℓ} : {A : Type ℓ} → Option A → ℕ
weight none = 0
weight (some a) = 1

abbrev pub Promised : List Phase → Option ℕ → Type 0
Promised ts none = Unit {0}
Promised ts (some p) = 0 < total (claims p) ts

pub record Inv (s : System) : Type 0 where
  pub counted : s.client.inflight ≡ total uses s.threads
  pub one_builder : total builds s.threads ≡ weight s.client.starting
  pub vacant : is_some s.client.starting ≡ true → s.client.node ≡ none
  pub emptied : s.client.closed ≡ true → s.client.node ≡ none
  pub current : s.client.closed ≡ false → All (HasNode s.client.node) s.threads
  pub discarded : All (Discards s.client.closed) s.threads
  pub conserved :
      s.next_node ≡ weight s.client.node + total owns s.threads + length s.doomed + length s.torn
  pub promised : Promised s.threads s.client.starting
  pub awaited : All (IsPromised s.announced s.threads) s.threads
