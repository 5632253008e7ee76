-- ===== src/Dag/Limits.antt =====
-- client/node.go: how much `materialise` writes.
use ipfs_mobile.Prelude.{ℕ, ◌+◌, ◌-◌, ◌≡◌, ◌≤◌, ◌<◌, refl, inl, inr, Option, none, some, arith}
use ipfs_mobile.Prelude.Tests.{Bool-cases}
use ipfs_mobile.Prelude.Text.{Text}
use ipfs_mobile.Prelude.Dict.{lookup}
use ipfs_mobile.Prelude.Int.{pos}
use ipfs_mobile.Errors.{Error}
use ipfs_mobile.FilePath.{join}
use ipfs_mobile.Storage.{Files, Entry, folder, Body, put, may_create, max_i64}
use ipfs_mobile.Storage.Limits.{
  write_limited-le, write_limited-whole, remaining-pos, size_limit_with_totals-none,
}
use ipfs_mobile.Storage.Stored.{stored, stored-insert, write_limited-stored}
use ipfs_mobile.Dag.{
  Node, Items, symlink, regular, directory, other, end, item, Outcome, stopped, write_regular,
  and_then, in_folder, materialise, materialise_items, valid_entry_name,
}

-- The counter grew as the disk did, and stayed within the limit, or one byte past it where an error
-- is reported.
pub record Grown (l : ℕ) (fs : Files) (written : ℕ) (r : Outcome) : Type 0 where
  pub grew : stored (r.files).entries + written ≡ stored fs.entries + r.written
  pub at_most : r.written ≤ l + 1
  pub within : r.failure ≡ none → r.written ≤ l

module _ (l : ℕ) (positive : 0 < l) (small : l < max_i64) where
  stopped-Grown :
      (fs : Files) (written : ℕ) (e : Error)
      → written ≤ l
      → Grown l fs written (stopped fs written e)
  stopped-Grown fs written e le = record {
    grew = omega arith;
    at_most = omega arith;
    within = λ k. cc;
  }

  regular-Grown :
      (fs : Files) (path : Text) (b : Body) (written : ℕ)
      → written ≤ l
      → Grown l fs written (write_regular fs path b (pos l) written)
  regular-Grown fs path b written le = rw (remaining-pos l written positive le) (record {
    grew = omega (arith, write_limited-stored fs path b (pos (l - written)));
    at_most = omega (arith, write_limited-le fs path b (l - written) (omega arith));
    within = λ k. omega (
      arith,
      (write_limited-whole fs path b (l - written) (omega arith)
          (size_limit_with_totals-none _ _ (pos l) k)).0,
    );
  })

  then-Grown :
      (fs : Files) (written : ℕ) (r : Outcome) (rest : Files → ℕ → Outcome) (f : Option Error)
      → r.failure ≡ f
      → Grown l fs written r
      → (r.written ≤ l → Grown l r.files r.written (rest r.files r.written))
      → Grown l fs written (and_then r rest f)
  then-Grown fs written r rest (some e) h g more = g
  then-Grown fs written r rest none h g more =
      let m = more (g.within h) in
      record { grew = omega (arith, g.grew, m.grew); at_most = m.at_most; within = m.within }

  folder-Grown :
      (fs : Files) (path : Text) (written : ℕ) (rest : Files → ℕ → Outcome)
      → written ≤ l
      → ((fs' : Files) → Grown l fs' written (rest fs' written))
      → Grown l fs written (
          in_folder fs path written
            (may_create fs path (fs.refuses path) (lookup path fs.entries))
            rest)
  folder-Grown fs path written rest le more = go (lookup path fs.entries) (fs.refuses path) refl
    where
      go :
          (o : Option Entry) (r : Option Error)
          → lookup path fs.entries ≡ o
          → Grown l fs written (in_folder fs path written (may_create fs path r o) rest)
      go (some o) r there = stopped-Grown fs written _ le
      go none (some e) there = stopped-Grown fs written e le
      go none none there =
          let g = more (put path folder fs) in
          record {
            grew = omega (arith, g.grew, stored-insert path folder fs.entries there);
            at_most = g.at_most;
            within = g.within;
          }

mutual
  unfolding materialise

  materialise-Grown :
      (nd : Node) (l : ℕ) (positive : 0 < l) (small : l < max_i64) (fs : Files) (path : Text)
      (written : ℕ)
      → written ≤ l
      → Grown l fs written (materialise nd (pos l) fs path written)
  materialise-Grown (symlink t) l p s fs path written le = stopped-Grown l p s fs written _ le
  materialise-Grown (regular b) l p s fs path written le = regular-Grown l p s fs path b written le
  materialise-Grown (directory items) l p s fs path written le =
      folder-Grown l p s fs path written (λ fs' n. materialise_items items (pos l) path fs' n) le
        (λ fs'. items-Grown items l p s path fs' written le)
  materialise-Grown other l p s fs path written le = stopped-Grown l p s fs written _ le

  items-Grown :
      (items : Items) (l : ℕ) (positive : 0 < l) (small : l < max_i64) (path : Text) (fs : Files)
      (written : ℕ)
      → written ≤ l
      → Grown l fs written (materialise_items items (pos l) path fs written)
  items-Grown (end e) l p s path fs written le = record {
    grew = omega arith;
    at_most = omega arith;
    within = λ k. le;
  }
  items-Grown (item name nd rest) l p s path fs written le =
      elim (Bool-cases (valid_entry_name name)) [
        | inl v ↦ rw v (
            let r = materialise nd (pos l) fs (join path name) written in
            then-Grown l p s fs written r (λ fs' n. materialise_items rest (pos l) path fs' n)
              r.failure refl (materialise-Grown nd l p s fs (join path name) written le)
              (λ le'. items-Grown rest l p s path r.files r.written le'))
        | inr v ↦ rw v (stopped-Grown l p s fs written _ le)
      ]

-- With a positive limit below the largest int64, materialise puts at most one byte more than the
-- limit on the disk, whatever the node declares and however the writing ends, and the files on the
-- disk grow by the count it returns.
pub materialise-le :
    (nd : Node) (l : ℕ)
    → 0 < l
    → l < max_i64
    → (fs : Files) (path : Text)
    → let r = materialise nd (pos l) fs path 0 in
      (r.written ≤ l + 1) × (stored (r.files).entries ≡ stored fs.entries + r.written)
materialise-le nd l p s fs path =
    let g = materialise-Grown nd l p s fs path 0 (omega arith) in (g.at_most, omega (arith, g.grew))
