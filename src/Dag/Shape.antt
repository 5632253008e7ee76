-- ===== src/Dag/Shape.antt =====
-- client/node.go: what a node must be for `materialise` to write it without an error, and which
-- files it then leaves.
use ipfs_mobile.Prelude.{
  ℕ, ◌+◌, ◌-◌, ◌≡◌, ◌≤◌, ◌<◌, ◌⊎◌, refl, inl, inr, Bool, true, false, ◌&&◌, Option, none, some,
  arith,
}
use ipfs_mobile.Prelude.Tests.{Bool-cases}
use ipfs_mobile.Prelude.Lists.{length}
use ipfs_mobile.Prelude.Text.{Text}
use ipfs_mobile.Prelude.Int.{ℤ, pos, ltb_ℤ}
use ipfs_mobile.Errors.{Error}
use ipfs_mobile.FilePath.{join}
use ipfs_mobile.Storage.{Files, folder, Body, put, max_i64}
use ipfs_mobile.Storage.Limits.{
  write_limited-whole, write_limited-unlimited, remaining-pos, remaining_none,
  size_limit_with_totals-none,
}
use ipfs_mobile.Dag.{
  Node, Items, symlink, regular, directory, other, end, item, Outcome, write_regular, and_then,
  in_folder, materialise, materialise_items, valid_entry_name,
}

abbrev pub ended : Option Error → Bool
ended none = true
ended (some e) = false

-- Only regular files and directories, all fetched to their ends, and only names that stay in their
-- directory.
unfoldable mutual
  pub is_plain : Node → Bool
  is_plain (symlink t) = false
  is_plain (regular b) = ended b.failure
  is_plain (directory items) = all_plain items
  is_plain other = false

  pub all_plain : Items → Bool
  all_plain (end e) = ended e
  all_plain (item name nd rest) = valid_entry_name name && (is_plain nd && all_plain rest)

-- The bytes of all files below a node.
unfoldable mutual
  pub size : Node → ℕ
  size (symlink t) = 0
  size (regular b) = length b.bytes
  size (directory items) = size_items items
  size other = 0

  pub size_items : Items → ℕ
  size_items (end e) = 0
  size_items (item name nd rest) = size nd + size_items rest

-- The limit is off, or positive, below the largest int64 and not yet exceeded.
abbrev pub Within : ℤ → ℕ → Type 0
Within limit written =
    (ltb_ℤ (pos 0) limit ≡ false)
    ⊎ ((l : ℕ) × (limit ≡ pos l) × (0 < l) × (l < max_i64) × (written ≤ l))

-- The node was plain, was counted whole, and left the counter within the limit.
abbrev Whole : ℤ → ℕ → Bool → ℕ → Outcome → Type 0
Whole limit written plain bytes r =
    (plain ≡ true) × (r.written ≡ written + bytes) × Within limit r.written

regular-Whole :
    (fs : Files) (path : Text) (b : Body) (limit : ℤ) (written : ℕ)
    → Within limit written
    → (write_regular fs path b limit written).failure ≡ none
    → Whole limit written (ended b.failure) (length b.bytes) (write_regular fs path b limit written)
regular-Whole fs path b limit written (inl off) = rw (remaining_none limit written off) λ h.
    (let w = write_limited-unlimited fs path b 0 (size_limit_with_totals-none _ _ limit h) in
      (rw (w.1) refl, omega (arith, w.0), inl off))
regular-Whole fs path b limit written (inr (l, e, p, s, le)) =
    rw (e, remaining-pos l written p le)
      λ h.
        (let w =
            write_limited-whole fs path b (l - written) (omega arith)
              (size_limit_with_totals-none _ _ (pos l) h) in
          (rw (w.2) refl, omega (arith, w.1), inr (l, refl, p, s, omega (arith, w.0))))

pub and_then-none :
    (r : Outcome) (rest : Files → ℕ → Outcome) (f : Option Error)
    → r.failure ≡ f
    → (and_then r rest f).failure ≡ none
    → (r.failure ≡ none)
      × (and_then r rest f ≡ rest r.files r.written)
      × ((rest r.files r.written).failure ≡ none)
and_then-none r rest none e h = (e, refl, h)
and_then-none r rest (some x) e h = cc

pub in_folder-none :
    (fs : Files) (path : Text) (written : ℕ) (f : Option Error) (rest : Files → ℕ → Outcome)
    → (in_folder fs path written f rest).failure ≡ none
    → in_folder fs path written f rest ≡ rest (put path folder fs) written
in_folder-none fs path written none rest h = refl
in_folder-none fs path written (some e) rest h = cc

mutual
  unfolding materialise is_plain size

  materialise-Whole :
      (nd : Node) (limit : ℤ) (fs : Files) (path : Text) (written : ℕ)
      → Within limit written
      → (materialise nd limit fs path written).failure ≡ none
      → Whole limit written (is_plain nd) (size nd) (materialise nd limit fs path written)
  materialise-Whole (symlink t) limit fs path written v h = cc
  materialise-Whole (regular b) limit fs path written v h =
      regular-Whole fs path b limit written v h
  materialise-Whole (directory items) limit fs path written v h =
      let rest : Files → ℕ → Outcome = λ fs' n. materialise_items items limit path fs' n in
      let e = in_folder-none fs path written _ rest h in
      rw e (items-Whole items limit path (put path folder fs) written v (rw e at h))
  materialise-Whole other limit fs path written v h = cc

  items-Whole :
      (items : Items) (limit : ℤ) (path : Text) (fs : Files) (written : ℕ)
      → Within limit written
      → (materialise_items items limit path fs written).failure ≡ none
      → Whole limit written
          (all_plain items)
          (size_items items)
          (materialise_items items limit path fs written)
  items-Whole (end e) limit path fs written v h = (rw h refl, omega arith, v)
  items-Whole (item name nd rest) limit path fs written v h =
      elim (Bool-cases (valid_entry_name name)) [
        | inr bad ↦ absurd (cc (rw bad at h))
        | inl good ↦
            let r = materialise nd limit fs (join path name) written in
            let more : Files → ℕ → Outcome = λ fs' n. materialise_items rest limit path fs' n in
            let (ok', e, h') = and_then-none r more r.failure refl (rw good at h) in
            let (p, k, v') = materialise-Whole nd limit fs (join path name) written v ok' in
            let (p', k', v'') = items-Whole rest limit path r.files r.written v' h' in
            rw (good, e) (rw (p, p') refl, omega (arith, k, k'), v'')
      ]

-- With the limit off, or positive, below the largest int64 and not yet exceeded, a node that
-- materialise writes without an error has no symlink and no unsupported node in it, only valid
-- entry names and contents fetched to their ends; the count grew by the bytes of its files and is
-- within the limit.
pub materialise-plain :
    (nd : Node) (limit : ℤ) (fs : Files) (path : Text) (written : ℕ)
    → Within limit written
    → (materialise nd limit fs path written).failure ≡ none
    → (is_plain nd ≡ true)
      × ((materialise nd limit fs path written).written ≡ written + size nd)
      × Within limit (materialise nd limit fs path written).written
materialise-plain nd limit fs path written v h = materialise-Whole nd limit fs path written v h
