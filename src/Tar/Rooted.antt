-- ===== src/Tar/Rooted.antt =====
-- client/fallback.go: the root that `extractTar` returns is below its staging directory.
use ipfs_mobile.Prelude.{◌≡◌, ◌⊎◌, inl, inr, refl, Option, none, some, List, [], ◌∷◌, subst, sym}
use ipfs_mobile.Prelude.Tests.{Bool-cases}
use ipfs_mobile.Prelude.Text.{Text, text_eq, text_eq_refl}
use ipfs_mobile.Prelude.Int.{ℤ}
use ipfs_mobile.Errors.{Error, Result, ok, err}
use ipfs_mobile.FilePath.{dir_of}
use ipfs_mobile.FilePath.Joined.{IsBelow}
use ipfs_mobile.Storage.{Files, Body}
use ipfs_mobile.Tar.{
  Progress, Header, Extracted, Flag, type_dir, type_reg, other, mkdir_all, extract_file,
  extract_flag, extract_at, extract_entry, extract_end, extract_from, extract_tar, continue_with,
  resolve_tar_path,
}
use ipfs_mobile.Tar.Names.{Placed, resolve_tar_path-Placed}
use ipfs_mobile.Tar.Above.{Under}

module _ (dir : Text) (below : IsBelow dir) (limit : ℤ) where
  -- Not known yet, or below the directory.
  abbrev Rooted : Text → Type 0
  Rooted root = (root ≡ []) ⊎ Under dir root

  file-root :
      (p : Progress) (path : Text) (b : Body) (m : Files × Option Error)
      → ((extract_file p path b limit m).progress).root ≡ p.root
  file-root p path b (fs, some e) = refl
  file-root p path b (fs, none) = refl

  flag-root :
      (p : Progress) (path : Text) (h : Header) (f : Flag)
      → ((extract_flag p path h limit f).progress).root ≡ p.root
  flag-root p path h type_dir = refl
  flag-root p path h type_reg = file-root p path h.body (mkdir_all p.files (dir_of path))
  flag-root p path h other = refl

  at-Rooted :
      (p : Progress) (h : Header) (r : Result (Text × Text))
      → Rooted p.root
      → Placed dir h.name r
      → Rooted ((extract_at p h limit r).progress).root
  at-Rooted p h (err e) rooted placed = rooted
  at-Rooted p h (ok (path, top)) rooted (c, cs, _, _, e, _) =
      elim (Bool-cases (text_eq p.root [])) [
        | inl b ↦
            rw b
              (subst Rooted (sym (flag-root (record p { root = top }) path h h.flag)) (inr (c, e)))
        | inr b ↦ elim (Bool-cases (text_eq top p.root)) [
          | inl k ↦ rw (b, k) (subst Rooted (sym (flag-root p path h h.flag)) rooted)
          | inr k ↦ rw (b, k) rooted
        ]
      ]

  -- What a success has: a root, below the directory.
  abbrev Ended : Extracted → Type 0
  Ended x = x.failure ≡ none → Under dir (x.progress).root

  end-Ended : (p : Progress) (e : Option Error) → Rooted p.root → Ended (extract_end p e)
  end-Ended p (some e) rooted h = cc
  end-Ended p none (inr under) h = elim (Bool-cases (text_eq p.root [])) [
    | inl b ↦ absurd (cc (rw b at h))
    | inr b ↦ rw b under
  ]
  end-Ended p none (inl e) h = absurd (cc (rw (e, text_eq_refl []) at h))

  continue-Ended :
      (r rest : Extracted) (f : Option Error)
      → r.failure ≡ f
      → Ended rest
      → Ended (continue_with r rest f)
  continue-Ended r rest none e more h = more h
  continue-Ended r rest (some x) e more h = cc

  from-Ended :
      (p : Progress) (hs : List Header) (e : Option Error)
      → Rooted p.root
      → Ended (extract_from dir limit p hs e)
  unfolding extract_from
  from-Ended p [] e rooted = end-Ended p e rooted
  from-Ended p (h ∷ hs) e rooted =
      let r = extract_entry dir limit p h in
      let one : Rooted (r.progress).root =
        unfold extract_entry in
        (at-Rooted p h (resolve_tar_path dir h.name) rooted
          (resolve_tar_path-Placed dir h.name below)) in
      continue-Ended r (extract_from dir limit r.progress hs e) r.failure refl
        (from-Ended r.progress hs e one)

  -- Where extractTar reports no error, the root it returns is below its directory.
  pub extract_tar-Under :
      (fs : Files) (hs : List Header) (ending : Option Error)
      → (extract_tar dir limit fs hs ending).failure ≡ none
      → Under dir ((extract_tar dir limit fs hs ending).progress).root
  unfolding extract_tar
  extract_tar-Under fs hs ending =
      from-Ended (record { files = fs; root = []; written = 0 }) hs ending (inl refl)
