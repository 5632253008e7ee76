-- ===== src/Tar/Confined.antt =====
-- client/fallback.go: `extractTar` changes nothing outside its staging directory.
use ipfs_mobile.Prelude.{
  ◌≡◌, ◌⊎◌, inl, inr, refl, Option, none, some, List, [], ◌∷◌, ◌++◌, ap, sym, ◌∙◌, append_assoc,
  subst,
}
use ipfs_mobile.Prelude.Tests.{Bool-cases}
use ipfs_mobile.Prelude.Lists.{All}
use ipfs_mobile.Prelude.Text.{Text, text_eq}
use ipfs_mobile.Prelude.Int.{ℤ}
use ipfs_mobile.Errors.{Error, Result, ok, err}
use ipfs_mobile.FilePath.{slash, join_slash, dir_of}
use ipfs_mobile.FilePath.Joined.{IsName, IsBelow}
use ipfs_mobile.FilePath.Parents.{dir_of-append}
use ipfs_mobile.Storage.{Files, Body, write_limited, remaining}
use ipfs_mobile.Storage.Kept.{write_limited-Keeps, write_limited_beside}
use ipfs_mobile.Dag.Places.{IsBelow-name}
use ipfs_mobile.Tar.{
  Progress, Header, Extracted, Flag, type_dir, type_reg, other, mkdir_all, extract_file,
  extract_flag, extract_at, extract_entry, extract_end, extract_from, extract_tar, continue_with,
  resolve_tar_path,
}
use ipfs_mobile.Tar.Names.{Placed, resolve_tar_path-Placed}
use ipfs_mobile.Tar.Folders.{Folders, Folders-Keeps}
use ipfs_mobile.Tar.Above.{Confined, Under, apart, unchanged, Confined-Confined, mkdir_all-Confined}

write_limited-Confined :
    (dir p : Text) (b : Body) (limit : ℤ) (fs : Files)
    → Under dir p
    → Confined dir fs (write_limited fs p b limit).files
write_limited-Confined dir p b limit fs under = record {
  keeps = write_limited-Keeps fs p b limit;
  outside = λ q out. write_limited_beside fs p q b limit (apart dir p q under out);
}

-- A path of names below a directory is a name in a directory that is this one or below it.
abbrev Parted : Text → Text → Type 0
Parted dir path =
    (parent : Text) × (last : Text) × (path ≡ parent ++ (slash ∷ last))
    × IsBelow parent
    × IsName last
    × ((parent ≡ dir) ⊎ Under dir parent)

names-Parted :
    (dir c : Text) (cs : List Text)
    → IsBelow dir
    → All IsName (c ∷ cs)
    → Parted dir (dir ++ (slash ∷ join_slash (c ∷ cs)))
unfolding join_slash
names-Parted dir c [] below names = (dir, c, refl, below, names.0, inl refl)
names-Parted dir c (d ∷ cs) below (name, names) =
    let (parent, last, e, b, n, place) =
      names-Parted (dir ++ (slash ∷ c)) d cs (IsBelow-name dir c below name) names in
    (
      parent,
      last,
      sym (append_assoc dir (slash ∷ c) (slash ∷ join_slash (d ∷ cs))) ∙ e,
      b,
      n,
      inr (lifted parent place),
    )
  where
    lifted :
        (parent : Text)
        → (parent ≡ dir ++ (slash ∷ c)) ⊎ Under (dir ++ (slash ∷ c)) parent
        → Under dir parent
    lifted parent (inl e) = (c, e)
    lifted parent (inr (u, e)) = (c ++ (slash ∷ u), e ∙ append_assoc dir (slash ∷ c) (slash ∷ u))

dir_of-Parted : (dir path : Text) → Parted dir path → (dir_of path ≡ dir) ⊎ Under dir (dir_of path)
dir_of-Parted dir path (parent, last, e, below, name, place) =
    subst (λ p. (p ≡ dir) ⊎ Under dir p)
      (sym (ap dir_of e ∙ dir_of-append parent last below (name.0).flat)) place

module _ (dir : Text) (below : IsBelow dir) (limit : ℤ) where
  abbrev Stays : Progress → Extracted → Type 0
  Stays p x = Confined dir p.files (x.progress).files

  file-Stays :
      (p : Progress) (path : Text) (b : Body) (m : Files × Option Error)
      → Under dir path
      → Confined dir p.files m.0
      → Stays p (extract_file p path b limit m)
  file-Stays p path b (fs, some e) under made = made
  file-Stays p path b (fs, none) under made =
      Confined-Confined dir p.files fs _ made
        (write_limited-Confined dir path b (remaining limit p.written) fs under)

  flag-Stays :
      (p : Progress) (path : Text) (h : Header) (f : Flag)
      → Folders p.files dir
      → Under dir path
      → (dir_of path ≡ dir) ⊎ Under dir (dir_of path)
      → Stays p (extract_flag p path h limit f)
  flag-Stays p path h type_dir standing under above =
      mkdir_all-Confined dir path p.files below standing (inr under)
  flag-Stays p path h type_reg standing under above =
      file-Stays p path h.body (mkdir_all p.files (dir_of path)) under
        (mkdir_all-Confined dir (dir_of path) p.files below standing above)
  flag-Stays p path h other standing under above = unchanged dir p.files

  at-Stays :
      (p : Progress) (h : Header) (r : Result (Text × Text))
      → Folders p.files dir
      → Placed dir h.name r
      → Stays p (extract_at p h limit r)
  at-Stays p h (err e) standing placed = unchanged dir p.files
  at-Stays p h (ok (path, top)) standing (c, cs, names, at, _, _) =
      let under : Under dir path = (join_slash (c ∷ cs), at) in
      let above =
        dir_of-Parted dir path (subst (Parted dir) (sym at) (names-Parted dir c cs below names)) in
      elim (Bool-cases (text_eq p.root [])) [
        | inl b ↦ rw b (flag-Stays (record p { root = top }) path h h.flag standing under above)
        | inr b ↦ elim (Bool-cases (text_eq top p.root)) [
          | inl k ↦ rw (b, k) (flag-Stays p path h h.flag standing under above)
          | inr k ↦ rw (b, k) (unchanged dir p.files)
        ]
      ]

  end-Stays : (p : Progress) (e : Option Error) → Stays p (extract_end p e)
  end-Stays p (some e) = unchanged dir p.files
  end-Stays p none = elim (Bool-cases (text_eq p.root [])) [
    | inl b ↦ rw b (unchanged dir p.files)
    | inr b ↦ rw b (unchanged dir p.files)
  ]

  continue-Stays :
      (p : Progress) (r rest : Extracted) (f : Option Error)
      → Stays p r
      → Stays r.progress rest
      → Stays p (continue_with r rest f)
  continue-Stays p r rest (some e) g more = g
  continue-Stays p r rest none g more =
      Confined-Confined dir p.files (r.progress).files (rest.progress).files g more

  from-Stays :
      (p : Progress) (hs : List Header) (e : Option Error)
      → Folders p.files dir
      → Stays p (extract_from dir limit p hs e)
  unfolding extract_from
  from-Stays p [] e standing = end-Stays p e
  from-Stays p (h ∷ hs) e standing =
      let r = extract_entry dir limit p h in
      let one : Stays p r =
        unfold extract_entry in
        (at-Stays p h (resolve_tar_path dir h.name) standing
          (resolve_tar_path-Placed dir h.name below)) in
      continue-Stays p r (extract_from dir limit r.progress hs e) r.failure one (
        from-Stays r.progress hs e
          (Folders-Keeps p.files (r.progress).files dir one.keeps standing))

-- In a clean directory that is neither the root nor the working directory and stands with all above
-- it, extractTar changes nothing outside the directory and nothing that stood before, whatever the
-- archive holds and however it ends.
pub extract_tar-Confined :
    (dir : Text) (limit : ℤ) (fs : Files) (hs : List Header) (ending : Option Error)
    → IsBelow dir
    → Folders fs dir
    → Confined dir fs ((extract_tar dir limit fs hs ending).progress).files
unfolding extract_tar
extract_tar-Confined dir limit fs hs ending below standing =
    from-Stays dir below limit (record { files = fs; root = []; written = 0 }) hs ending standing
