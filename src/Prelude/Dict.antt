-- ===== src/Prelude/Dict.antt =====
-- A Go map with text keys: an association list with one entry for each key that was inserted.
use mathlib.Core.Path.{◌≡◌, refl}
use mathlib.Core.List.{List, [], ◌∷◌}
use mathlib.Core.Option.{Option, none, some}
use native.Mathlib.Omega.{arith}
use Prim.Native.Nat.{◌+◌, ◌≤◌}
use ipfs_mobile.Prelude.Tests.{if◌then◌else◌}
use ipfs_mobile.Prelude.Lists.{length}
use ipfs_mobile.Prelude.Text.{Text, text_eq, text_eq_iff}

abbrev pub Dict {ℓ} : Type ℓ → Type ℓ
Dict V = List (Text × V)

module _ {ℓ} {V : Type ℓ} where
  unfoldable pub lookup : Text → Dict V → Option V
  lookup key [] = none
  lookup key ((at, found) ∷ rest) = if text_eq at key then some found else lookup key rest

  -- `m[key] = value`.
  unfoldable pub insert : Text → V → Dict V → Dict V
  insert key value [] = (key, value) ∷ []
  insert key value ((at, old) ∷ rest) =
      if text_eq at key then (at, value) ∷ rest else (at, old) ∷ insert key value rest

  -- `delete(m, key)`.
  unfoldable pub erase : Text → Dict V → Dict V
  erase key [] = []
  erase key ((at, old) ∷ rest) =
      let others = erase key rest in if text_eq at key then others else (at, old) ∷ others

  pub lookup-insert :
      (key other : Text) (value : V) (rest : Dict V)
      → lookup other (insert key value rest)
        ≡ (if text_eq key other then some value else lookup other rest)
  unfolding insert lookup
  lookup-insert key other value [] = refl
  lookup-insert key other value ((at, old) ∷ rest) = ground (
    arith,
    lookup-insert key other value rest,
    text_eq_iff at key,
    text_eq_iff at other,
    text_eq_iff key other,
  )

  pub lookup-erase :
      (key other : Text) (rest : Dict V)
      → lookup other (erase key rest) ≡ (if text_eq key other then none else lookup other rest)
  unfolding erase lookup
  lookup-erase key other [] = ground arith
  lookup-erase key other ((at, old) ∷ rest) = ground (
    arith,
    lookup-erase key other rest,
    text_eq_iff at key,
    text_eq_iff at other,
    text_eq_iff key other,
  )

  pub length-insert-le :
      (key : Text) (value : V) (rest : Dict V) → length (insert key value rest) ≤ length rest + 1
  unfolding insert
  length-insert-le key value [] = omega arith
  length-insert-le key value ((at, old) ∷ rest) = ground (arith, length-insert-le key value rest)
