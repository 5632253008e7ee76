-- ===== src/Tar/Folders.antt =====
-- client/fallback.go: `os.MkdirAll` where the folders above its path stand already.
use ipfs_mobile.Prelude.{
  ◌≡◌, ◌≢◌, refl, false, inl, inr, none, some, List, [], ◌∷◌, ◌++◌, arith, ap, sym, ◌∙◌,
  append_assoc, append-nil, subst, not, ◌&&◌,
}
use ipfs_mobile.Prelude.Tests.{Bool-cases, ◌==◌}
use ipfs_mobile.Prelude.Lists.{All, All-append, All-map}
use ipfs_mobile.Prelude.Text.{Text, text_eq, text_eq_iff}
use ipfs_mobile.Prelude.Dict.{lookup}
use ipfs_mobile.FilePath.{slash}
use ipfs_mobile.FilePath.Pieces.{Lacks}
use ipfs_mobile.Storage.{Files, folder, put}
use ipfs_mobile.Storage.Kept.{Keeps}
use ipfs_mobile.Tar.{make_folders, ancestors, mkdir_all}

-- A path and all that it is below are folders.
abbrev pub Folders : Files → Text → Type 0
Folders fs path = All (λ p. lookup p fs.entries ≡ some folder) (ancestors [] path)

ancestors-flat : (done n : Text) → Lacks slash n → ancestors done n ≡ (done ++ n) ∷ []
unfolding ancestors
ancestors-flat done [] h = ap (λ d. d ∷ []) (sym (append-nil done))
ancestors-flat done (c ∷ n) (h, hs) =
    let other : (c == slash) ≡ false = ground arith in
    rw other
      (ancestors-flat (done ++ c ∷ []) n hs ∙ ap (λ d. d ∷ []) (append_assoc done (c ∷ []) n))

pub text_eq-nonempty : (s : Text) → s ≢ [] → text_eq s [] ≡ false
text_eq-nonempty s h = elim (Bool-cases (text_eq s [])) [
  | inl e ↦ absurd (h ((text_eq_iff s []).0 e))
  | inr n ↦ n
]

ancestors-name :
    (done s n : Text)
    → done ++ s ≢ []
    → Lacks slash n
    → ancestors done (s ++ (slash ∷ n)) ≡ ancestors done s ++ (done ++ (s ++ (slash ∷ n))) ∷ []
unfolding ancestors
ancestors-name done [] n h flat = rw (text_eq-nonempty done (λ e. h (append-nil done ∙ e))) (
    ap (λ ps. done ∷ ps)
      (ancestors-flat (done ++ (slash ∷ [])) n flat
        ∙ ap (λ d. d ∷ []) (append_assoc done (slash ∷ []) n)))
ancestors-name done (c ∷ s) n h flat =
    let longer : (done ++ c ∷ []) ++ s ≢ [] = λ e. h (sym (append_assoc done (c ∷ []) s) ∙ e) in
    let rec =
      ancestors-name (done ++ c ∷ []) s n longer flat
      ∙ ap (λ q. ancestors (done ++ c ∷ []) s ++ q ∷ [])
          (append_assoc done (c ∷ []) (s ++ (slash ∷ n))) in
    elim (Bool-cases ((c == slash) && not (text_eq done []))) [
      | inl b ↦ rw (b, rec) refl
      | inr b ↦ rw (b, rec) refl
    ]

make_folders-standing :
    (fs : Files) (ps : List Text)
    → All (λ p. lookup p fs.entries ≡ some folder) ps
    → make_folders fs ps ≡ (fs, none)
unfolding make_folders
make_folders-standing fs [] h = refl
make_folders-standing fs (p ∷ ps) (h, hs) = rw (make_folders, h) (make_folders-standing fs ps hs)

make_folders-last :
    (fs : Files) (ps : List Text) (q : Text)
    → All (λ p. lookup p fs.entries ≡ some folder) ps
    → lookup q fs.entries ≡ none
    → fs.refuses q ≡ none
    → make_folders fs (ps ++ q ∷ []) ≡ (put q folder fs, none)
unfolding make_folders
make_folders-last fs [] q h free willing = rw (make_folders, free, willing) refl
make_folders-last fs (p ∷ ps) q (h, hs) free willing =
    rw (make_folders, h) (make_folders-last fs ps q hs free willing)

-- MkdirAll of a path that stands as a folder changes nothing.
pub mkdir_all-standing :
    (fs : Files) (path : Text) → Folders fs path → mkdir_all fs path ≡ (fs, none)
unfolding mkdir_all
mkdir_all-standing fs path h = make_folders-standing fs (ancestors [] path) h

-- MkdirAll of a new name in a folder that stands makes one folder.
pub mkdir_all-name :
    (fs : Files) (path n : Text)
    → path ≢ []
    → Lacks slash n
    → Folders fs path
    → lookup (path ++ (slash ∷ n)) fs.entries ≡ none
    → fs.refuses (path ++ (slash ∷ n)) ≡ none
    → mkdir_all fs (path ++ (slash ∷ n)) ≡ (put (path ++ (slash ∷ n)) folder fs, none)
unfolding mkdir_all
mkdir_all-name fs path n h flat standing free willing =
    ap (make_folders fs) (ancestors-name [] path n h flat)
    ∙ make_folders-last fs (ancestors [] path) (path ++ (slash ∷ n)) standing free willing

pub Folders-Keeps :
    (fs fs' : Files) (path : Text) → Keeps fs fs' → Folders fs path → Folders fs' path
Folders-Keeps fs fs' path keeps = All-map (ancestors [] path) (λ p h. keeps p folder h)

pub Folders-name :
    (fs : Files) (path n : Text)
    → path ≢ []
    → Lacks slash n
    → Folders fs path
    → lookup (path ++ (slash ∷ n)) fs.entries ≡ some folder
    → Folders fs (path ++ (slash ∷ n))
Folders-name fs path n h flat standing at =
    subst (All (λ p. lookup p fs.entries ≡ some folder)) (sym (ancestors-name [] path n h flat))
      (All-append (λ p. lookup p fs.entries ≡ some folder) (ancestors [] path) _ standing (at, tt))
