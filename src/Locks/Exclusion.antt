-- ===== src/Locks/Exclusion.antt =====
-- client/output.go: what `pathLocks` guarantees to the downloads that replace outputs.
use ipfs_mobile.Prelude.{◌∙◌, ap, sym, ℕ, ◌≡◌, ◌≤◌, ◌<◌, Bool, true, false, none, some, List, arith}
use ipfs_mobile.Prelude.Tests.{if◌then◌else◌}
use ipfs_mobile.Prelude.Lists.{total, get_elem?, All-get_elem?, total-two, total-pos}
use ipfs_mobile.Prelude.Text.{Text}
use ipfs_mobile.Prelude.Dict.{lookup}
use native.Mathlib.Decide.{ℕ_discrete}
use ipfs_mobile.Lifecycle.System.{contains}
use ipfs_mobile.Locks.{System, Phase, Action, queued, inside, run, initial}
use ipfs_mobile.Locks.Invariant.{Inv, at, inside_at, HasGate}
use ipfs_mobile.Locks.Preserved.{run-Inv, initial-Inv}

holder : (g : ℕ) (x : Phase) → 0 < inside_at g x → (k : Text) × (x ≡ inside k g)
holder g (inside k h) p = (k, ground arith)
holder g (queued k h) p = absurd (omega arith)
holder g _ p = absurd (omega arith)

module _ (history : List Action) where
  abbrev reached : System
  reached = run initial history

  reached-Inv : Inv reached
  reached-Inv = run-Inv initial history initial-Inv

  le_one : (b : Bool) → (if b then 1 else 0) ≤ 1
  le_one true = omega arith
  le_one false = omega arith

  some_injective : {a b : ℕ} → some a ≡ some b → a ≡ b
  some_injective h = cc

  -- However calls of pathLocks.lock interleave, two calls that hold the lock of one path are the
  -- same call.
  pub inside-exclusive :
      (k : Text) (g h i j : ℕ)
      → get_elem? reached.threads i ≡ some (inside k g)
      → get_elem? reached.threads j ≡ some (inside k h)
      → i ≡ j
  inside-exclusive k g h i j a b = elim (ℕ_discrete i j) [
    | yes e ↦ e
    | no ne ↦
        let inv = reached-Inv in
        let same = some_injective (
          sym (All-get_elem? (HasGate reached.locks.held) reached.threads i inv.gates a)
          ∙ All-get_elem? (HasGate reached.locks.held) reached.threads j inv.gates b) in
        absurd (
          ground (
            arith,
            total-two (inside_at g) reached.threads i j a b ne,
            inv.tokens g,
            le_one (contains g reached.full),
            same,
          ))
  ]

  -- In every reached state, where the channel that a queued call would send to is full, some call
  -- that was given the same channel holds its token.
  pub full-inside :
      (k : Text) (g i : ℕ)
      → get_elem? reached.threads i ≡ some (queued k g)
      → contains g reached.full ≡ true
      → (j : ℕ) × (k' : Text) × (get_elem? reached.threads j ≡ some (inside k' g))
  full-inside k g i a f =
      let (j, x, b, p) =
        total-pos (inside_at g) reached.threads (ground (arith, reached-Inv.tokens g)) in
      let (k', e) = holder g x p in (j, k', b ∙ ap some e)

  -- In every reached state, a path that no call is using has no entry in either map of pathLocks.
  pub unused-absent :
      (k : Text)
      → total (at k) reached.threads ≡ 0
      → (lookup k reached.locks.held ≡ none) × (lookup k reached.locks.waiting ≡ none)
  unused-absent k h = reached-Inv.tidy k h
