-- ===== src/Tar/Limits.antt =====
-- client/fallback.go: how much `extractTar` writes.
use ipfs_mobile.Prelude.{
  ◌∙◌, ℕ, ◌+◌, ◌-◌, ◌≡◌, ◌≤◌, ◌<◌, refl, inl, inr, Option, none, some, List, [], ◌∷◌, arith,
}
use ipfs_mobile.Prelude.Tests.{Bool-cases}
use ipfs_mobile.Prelude.Text.{Text, text_eq}
use ipfs_mobile.Prelude.Dict.{lookup}
use ipfs_mobile.Prelude.Int.{pos}
use ipfs_mobile.Errors.{Error, Result, ok, err}
use ipfs_mobile.Storage.{Files, Entry, folder, file, put, max_i64}
use ipfs_mobile.Storage.Limits.{
  write_limited-le, write_limited-whole, remaining-pos, size_limit_with_totals-none,
}
use ipfs_mobile.Storage.Stored.{stored, stored-insert, write_limited-stored}
use ipfs_mobile.FilePath.{dir_of}
use ipfs_mobile.Tar.{
  Progress, Header, Extracted, Flag, type_dir, type_reg, other, make_folder, make_folders,
  mkdir_all, extract_file, extract_folder, extract_flag, extract_at, extract_entry, extract_end,
  extract_from, extract_tar, continue_with, failed, resolve_tar_path, ancestors,
}

-- Folders take no bytes.
make_folders-stored :
    (fs : Files) (ps : List Text) → stored ((make_folders fs ps).0).entries ≡ stored fs.entries
unfolding make_folders
make_folders-stored fs [] = refl
make_folders-stored fs (p ∷ ps) =
    go (λ fs'. make_folders-stored fs' ps) (lookup p fs.entries) (fs.refuses p) refl
  where
    go :
        ((fs' : Files) → stored ((make_folders fs' ps).0).entries ≡ stored fs'.entries)
        → (o : Option Entry) (r : Option Error) → lookup p fs.entries ≡ o
        → stored
            ((elim (make_folder fs p o r) as (λ m. Files × Option Error) [
              | ok fs' ↦ make_folders fs' ps
              | err e ↦ (fs, some e)
            ]).0
              ).entries
          ≡ stored fs.entries
    go rec (some folder) r h = rec fs
    go rec (some (file b)) r h = refl
    go rec none (some e) h = refl
    go rec none none h = rec (put p folder fs) ∙ stored-insert p folder fs.entries h ∙ omega arith

mkdir_all-stored :
    (fs : Files) (path : Text) → stored ((mkdir_all fs path).0).entries ≡ stored fs.entries
unfolding mkdir_all
mkdir_all-stored fs path = make_folders-stored fs (ancestors [] path)

-- The counter grew as the disk did, and stayed within the limit, or one byte past it where an error
-- is reported.
pub record Grown (l : ℕ) (p : Progress) (r : Extracted) : Type 0 where
  pub grew :
      stored ((r.progress).files).entries + p.written
      ≡ stored (p.files).entries + (r.progress).written
  pub at_most : (r.progress).written ≤ l + 1
  pub within : r.failure ≡ none → (r.progress).written ≤ l

module _ (l : ℕ) (positive : 0 < l) (small : l < max_i64) where
  unchanged : (p : Progress) (e : Error) → p.written ≤ l → Grown l p (failed p e)
  unchanged p e h = record { grew = omega arith; at_most = omega arith; within = λ k. cc }

  file-Grown :
      (p : Progress) (path : Text) (h : Header) (m : Files × Option Error)
      → p.written ≤ l
      → stored (m.0).entries ≡ stored (p.files).entries
      → Grown l p (extract_file p path h.body (pos l) m)
  file-Grown p path h (fs, some e) le same = record {
    grew = omega (arith, same);
    at_most = omega arith;
    within = λ k. cc;
  }
  file-Grown p path h (fs, none) le same = rw (remaining-pos l p.written positive le) (record {
    grew = omega (arith, same, write_limited-stored fs path h.body (pos (l - p.written)));
    at_most = omega (arith, write_limited-le fs path h.body (l - p.written) (omega arith));
    within = λ k. omega (
      arith,
      (write_limited-whole fs path h.body (l - p.written) (omega arith)
          (size_limit_with_totals-none _ _ (pos l) k)).0,
    );
  })

  folder-Grown :
      (p : Progress) (m : Files × Option Error)
      → p.written ≤ l
      → stored (m.0).entries ≡ stored (p.files).entries
      → Grown l p (extract_folder p m)
  folder-Grown p (fs, e) le same = record {
    grew = omega (arith, same);
    at_most = omega arith;
    within = λ k. le;
  }

  flag-Grown :
      (p : Progress) (path : Text) (h : Header) (f : Flag)
      → p.written ≤ l
      → Grown l p (extract_flag p path h (pos l) f)
  flag-Grown p path h type_dir le =
      folder-Grown p (mkdir_all p.files path) le (mkdir_all-stored p.files path)
  flag-Grown p path h type_reg le =
      file-Grown p path h (mkdir_all p.files (dir_of path)) le
        (mkdir_all-stored p.files (dir_of path))
  flag-Grown p path h other le = unchanged p _ le

  at-Grown :
      (p : Progress) (h : Header) (r : Result (Text × Text))
      → p.written ≤ l
      → Grown l p (extract_at p h (pos l) r)
  at-Grown p h (err e) le = unchanged p e le
  at-Grown p h (ok (path, top)) le = elim (Bool-cases (text_eq p.root [])) [
    | inl b ↦ rw b (
        let g = flag-Grown (record p { root = top }) path h h.flag le in
        record { grew = g.grew; at_most = g.at_most; within = g.within })
    | inr b ↦ elim (Bool-cases (text_eq top p.root)) [
      | inl c ↦ rw (b, c) (flag-Grown p path h h.flag le)
      | inr c ↦ rw (b, c) (unchanged p _ le)
    ]
  ]

  end-Grown : (p : Progress) (e : Option Error) → p.written ≤ l → Grown l p (extract_end p e)
  end-Grown p (some e) le = unchanged p e le
  end-Grown p none le = elim (Bool-cases (text_eq p.root [])) [
    | inl b ↦ rw b (unchanged p _ le)
    | inr b ↦ rw b (record { grew = omega arith; at_most = omega arith; within = λ k. le })
  ]

  continue-Grown :
      (p : Progress) (r rest : Extracted) (f : Option Error)
      → r.failure ≡ f
      → Grown l p r
      → ((r.progress).written ≤ l → Grown l r.progress rest)
      → Grown l p (continue_with r rest f)
  continue-Grown p r rest (some e) h g more = g
  continue-Grown p r rest none h g more =
      let m = more (g.within h) in
      record { grew = omega (arith, g.grew, m.grew); at_most = m.at_most; within = m.within }

  from-Grown :
      (dir : Text) (p : Progress) (hs : List Header) (e : Option Error)
      → p.written ≤ l
      → Grown l p (extract_from dir (pos l) p hs e)
  unfolding extract_from
  from-Grown dir p [] e le = end-Grown p e le
  from-Grown dir p (h ∷ hs) e le =
      let r = extract_entry dir (pos l) p h in
      continue-Grown p r (extract_from dir (pos l) r.progress hs e) r.failure refl
        (unfold extract_entry in (at-Grown p h (resolve_tar_path dir h.name) le))
        (λ le'. from-Grown dir r.progress hs e le')

  -- With a positive limit below the largest int64, extractTar puts at most one byte more than the
  -- limit on the disk, whatever the archive holds and however it ends, and the files on the disk
  -- grow by the count it returns.
  pub extract_tar-le :
      (dir : Text) (fs : Files) (hs : List Header) (ending : Option Error)
      → let r = extract_tar dir (pos l) fs hs ending in
        ((r.progress).written ≤ l + 1)
        × (stored ((r.progress).files).entries ≡ stored fs.entries + (r.progress).written)
  unfolding extract_tar
  extract_tar-le dir fs hs ending =
      let g =
        from-Grown dir (record { files = fs; root = []; written = 0 }) hs ending (omega arith) in
      (g.at_most, omega (arith, g.grew))

  -- With a positive limit below the largest int64, an archive that extractTar unpacks without an
  -- error holds at most as many bytes as the limit.
  pub extract_tar_within :
      (dir : Text) (fs : Files) (hs : List Header) (ending : Option Error)
      → (extract_tar dir (pos l) fs hs ending).failure ≡ none
      → ((extract_tar dir (pos l) fs hs ending).progress).written ≤ l
  unfolding extract_tar
  extract_tar_within dir fs hs ending =
      (from-Grown dir (record { files = fs; root = []; written = 0 }) hs ending
        (omega arith)).within
