-- ===== src/Tar/Above.antt =====
-- client/fallback.go: `os.MkdirAll` below a directory that stands makes nothing outside it.
use ipfs_mobile.Prelude.{
  ◌≡◌, ◌≢◌, ◌⊎◌, inl, inr, refl, false, Option, none, some, List, [], ◌∷◌, ◌++◌, ap, sym, ◌∙◌,
  append_assoc, append-nil, subst, not, ◌&&◌,
}
use ipfs_mobile.Prelude.Tests.{Bool-cases, ◌==◌}
use ipfs_mobile.Prelude.Lists.{All, All-append, All-map}
use ipfs_mobile.Prelude.Text.{Text, text_eq, text_eq_iff}
use ipfs_mobile.Prelude.Dict.{lookup, lookup-insert}
use ipfs_mobile.Errors.{Error, ok, err}
use ipfs_mobile.FilePath.{slash}
use ipfs_mobile.FilePath.Joined.{IsBelow, IsBelow-nonempty}
use ipfs_mobile.Storage.{Files, Entry, folder, file, put}
use ipfs_mobile.Storage.Kept.{Keeps, put-Keeps}
use ipfs_mobile.Staging.{strip}
use ipfs_mobile.Staging.Subtree.{strip-append}
use ipfs_mobile.Tar.{make_folder, make_folders, ancestors, mkdir_all}
use ipfs_mobile.Tar.Folders.{Folders, text_eq-nonempty}

-- What stood stands, and outside the directory nothing else does.
pub record Confined (dir : Text) (fs fs' : Files) : Type 0 where
  pub keeps : Keeps fs fs'
  pub outside : (q : Text) → strip dir q ≡ none → lookup q fs'.entries ≡ lookup q fs.entries

pub unchanged : (dir : Text) (fs : Files) → Confined dir fs fs
unchanged dir fs = record { keeps = λ q e h. h; outside = λ q h. refl }

pub Confined-Confined :
    (dir : Text) (a b c : Files) → Confined dir a b → Confined dir b c → Confined dir a c
Confined-Confined dir a b c h k = record {
  keeps = λ q e at. k.keeps q e (h.keeps q e at);
  outside = λ q out. k.outside q out ∙ h.outside q out;
}

-- A path at or below the directory.
abbrev pub Under : Text → Text → Type 0
Under dir p = (u : Text) × (p ≡ dir ++ (slash ∷ u))

pub apart : (dir p q : Text) → Under dir p → strip dir q ≡ none → text_eq p q ≡ false
apart dir p q (u, e) out = elim (Bool-cases (text_eq p q)) [
  | inr n ↦ n
  | inl same ↦ absurd (
      cc (
        sym out
        ∙ ap (strip dir) (sym ((text_eq_iff p q).0 same) ∙ e)
        ∙ strip-append dir (slash ∷ u) refl))
]

put-Confined :
    (dir p : Text) (e : Entry) (fs : Files)
    → Under dir p
    → lookup p fs.entries ≡ none
    → Confined dir fs (put p e fs)
put-Confined dir p e fs under free = record {
  keeps = put-Keeps p e fs free;
  outside = λ q out. rw (lookup-insert, apart dir p q under out) refl;
}

ancestors-under : (done t : Text) → All (λ p. (u : Text) × (p ≡ done ++ u)) (ancestors done t)
unfolding ancestors
ancestors-under done [] = (([], sym (append-nil done)), tt)
ancestors-under done (c ∷ t) =
    let rec : All (λ p. (u : Text) × (p ≡ done ++ u)) (ancestors (done ++ c ∷ []) t) =
      All-map (ancestors (done ++ c ∷ []) t) (λ p (u, e). (c ∷ u, e ∙ append_assoc done (c ∷ []) u))
        (ancestors-under (done ++ c ∷ []) t) in
    elim (Bool-cases ((c == slash) && not (text_eq done []))) [
      | inl b ↦ rw b (([], sym (append-nil done)), rec)
      | inr b ↦ rw b rec
    ]

-- Above a path below the directory is what is above the directory, and what is below it.
ancestors-append :
    (done s t : Text)
    → done ++ s ≢ []
    → (rest : List Text) × (ancestors done (s ++ (slash ∷ t)) ≡ ancestors done s ++ rest)
      × All (Under (done ++ s)) rest
unfolding ancestors
ancestors-append done [] t h = (
  ancestors (done ++ (slash ∷ [])) t,
  rw (text_eq-nonempty done (λ e. h (append-nil done ∙ e))) refl,
  All-map (ancestors (done ++ (slash ∷ [])) t)
      (λ p (u, e). (
        u,
        e ∙ append_assoc done (slash ∷ []) u ∙ ap (λ d. d ++ (slash ∷ u)) (sym (append-nil done)),
      ))
      (ancestors-under (done ++ (slash ∷ [])) t),
)
ancestors-append done (c ∷ s) t h =
    let same = append_assoc done (c ∷ []) s in
    let (rest, e, under) = ancestors-append (done ++ c ∷ []) s t (λ k. h (sym same ∙ k)) in
    (
      rest,
      elim (Bool-cases ((c == slash) && not (text_eq done []))) [
        | inl b ↦ rw (b, e) refl
        | inr b ↦ rw (b, e) refl
      ],
      subst (λ d. All (Under d) rest) same under,
    )

-- Where a folder may be made: it stands already, or it is below the directory.
abbrev Allowed : Text → Files → Text → Type 0
Allowed dir fs p = (lookup p fs.entries ≡ some folder) ⊎ Under dir p

still :
    (dir : Text) (fs fs' : Files) (ps : List Text)
    → Keeps fs fs'
    → All (Allowed dir fs) ps
    → All (Allowed dir fs') ps
still dir fs fs' ps keeps = All-map ps go
  where
    go : (p : Text) → Allowed dir fs p → Allowed dir fs' p
    go p (inl at) = inl (keeps p folder at)
    go p (inr under) = inr under

make_folders-Confined :
    (dir : Text) (fs : Files) (ps : List Text)
    → All (Allowed dir fs) ps
    → Confined dir fs (make_folders fs ps).0
unfolding make_folders
make_folders-Confined dir fs [] h = unchanged dir fs
make_folders-Confined dir fs (p ∷ ps) (h, hs) =
    go (λ fs' k. make_folders-Confined dir fs' ps k) (lookup p fs.entries) (fs.refuses p) refl h
  where
    go :
        ((fs' : Files) → All (Allowed dir fs') ps → Confined dir fs' (make_folders fs' ps).0)
        → (o : Option Entry) (r : Option Error) → lookup p fs.entries ≡ o
        → Allowed dir fs p
        → Confined dir fs
            (elim (make_folder fs p o r) as (λ m. Files × Option Error) [
              | ok fs' ↦ make_folders fs' ps
              | err e ↦ (fs, some e)
            ]).0
    go rec (some folder) r at h = rec fs hs
    go rec (some (file b)) r at h = unchanged dir fs
    go rec none (some e) at h = unchanged dir fs
    go rec none none at (inl stands) = absurd (cc (sym at ∙ stands))
    go rec none none at (inr under) =
        let made = put-Confined dir p folder fs under at in
        Confined-Confined dir fs (put p folder fs) _ made
          (rec (put p folder fs) (still dir fs (put p folder fs) ps made.keeps hs))

-- Making the folders above a path below the directory makes none outside.
pub mkdir_all-Confined :
    (dir p : Text) (fs : Files)
    → IsBelow dir
    → Folders fs dir
    → (p ≡ dir) ⊎ Under dir p
    → Confined dir fs (mkdir_all fs p).0
unfolding mkdir_all
mkdir_all-Confined dir p fs below standing (inl e) = make_folders-Confined dir fs (ancestors [] p) (
    subst (λ q. All (Allowed dir fs) (ancestors [] q)) (sym e)
      (All-map (ancestors [] dir) (λ q at. inl at) standing))
mkdir_all-Confined dir p fs below standing (inr (u, e)) =
    let (rest, same, under) = ancestors-append [] dir u (IsBelow-nonempty dir below) in
    make_folders-Confined dir fs (ancestors [] p) (
      subst (All (Allowed dir fs)) (sym (ap (ancestors []) e ∙ same)) (
        All-append (Allowed dir fs) (ancestors [] dir) rest
          (All-map (ancestors [] dir) (λ q at. inl at) standing)
          (All-map rest (λ q k. inr k) under)))
