-- ===== src/Scratch/Upward.antt =====
-- client/node.go: a sweep leaves the folders above the directory that it sweeps.
use ipfs_mobile.Prelude.{
  ◌+◌, ◌≤◌, ◌<◌, ◌≡◌, refl, Bool, inl, inr, none, List, [], ◌∷◌, ◌++◌, arith, ap, ◌∙◌, not, ◌&&◌,
}
use ipfs_mobile.Prelude.Tests.{Bool-cases, Option-cases, ◌==◌}
use ipfs_mobile.Prelude.Lists.{length, length-append, All, All-map, All-map₂}
use ipfs_mobile.Prelude.Text.{Text, text_eq, text_eq_refl}
use ipfs_mobile.Prelude.Dict.{Dict, lookup, lookup-insert}
use ipfs_mobile.FilePath.{slash}
use ipfs_mobile.FilePath.Joined.{IsName, IsBelow, IsBelow-nonempty, join-name}
use ipfs_mobile.FilePath.Parents.{dir_of-append}
use ipfs_mobile.Storage.{Entry, folder, put}
use ipfs_mobile.Tar.{ancestors}
use ipfs_mobile.Tar.Folders.{Folders, Folders-name}
use ipfs_mobile.Dag.Places.{put_beside}
use ipfs_mobile.Staging.{DirEntry, strip, is_swept, sweep}
use ipfs_mobile.Staging.Subtree.{strip-some}
use ipfs_mobile.Replacement.{remove_some}
use ipfs_mobile.Replacement.Survivors.{remove_some_other}
use ipfs_mobile.Scratch.{Host, remove_each, swept}

-- What is above a path is no longer than it.
pub ancestors-le : (done s : Text) → All (λ q. length q ≤ length done + length s) (ancestors done s)
unfolding ancestors
ancestors-le done [] = (omega arith, tt)
ancestors-le done (c ∷ s) =
    let rec : All (λ q. length q ≤ length done + length (c ∷ s)) (ancestors (done ++ c ∷ []) s) =
      All-map (ancestors (done ++ c ∷ []) s) (λ q h. omega (arith, h, length-append done (c ∷ [])))
        (ancestors-le (done ++ c ∷ []) s) in
    elim (Bool-cases ((c == slash) && not (text_eq done []))) [
      | inl b ↦ rw b (omega arith, rec)
      | inr b ↦ rw b rec
    ]

pub strip_longer : (p q : Text) → length q < length p → strip p q ≡ none
strip_longer p q h = elim (Option-cases (strip p q)) [
  | inl e ↦ e
  | inr (t, e) ↦ absurd (omega (arith, ap length (strip-some p q t e), length-append p t))
]

-- A sweep removes what is below the directory.
sweep-longer :
    (dir prefix : Text) (live : List Text) (listing : List DirEntry)
    → IsBelow dir
    → All (λ e. IsName e.name) listing
    → All (λ p. length dir < length p) (sweep dir prefix live listing)
unfolding sweep
sweep-longer dir prefix live [] below named = tt
sweep-longer dir prefix live (e ∷ rest) below (h, hs) =
    let rec = sweep-longer dir prefix live rest below hs in
    elim (Bool-cases (is_swept dir prefix live e)) [
      | inl b ↦ rw b (
        omega (arith, ap length (join-name dir e.name below h), length-append dir (slash ∷ e.name)),
        rec,
      )
      | inr b ↦ rw b rec
    ]

pub remove_each_other :
    (stays : Text → Bool) (ps : List Text) (q : Text) (es : Dict Entry)
    → All (λ p. strip p q ≡ none) ps
    → lookup q (remove_each stays ps es) ≡ lookup q es
unfolding remove_each
remove_each_other stays [] q es h = refl
remove_each_other stays (p ∷ ps) q es (h, hs) =
    remove_each_other stays ps q (remove_some stays p es) hs ∙ remove_some_other stays p q es h

-- Where the listing holds names, the folders above the output stand after the sweep as before it.
pub swept-Folders :
    (prefix : Text) (listing : List DirEntry) (dir base : Text) (h : Host)
    → IsBelow dir
    → IsName base
    → All (λ e. IsName e.name) listing
    → Folders h.files dir
    → Folders (swept prefix listing (dir ++ (slash ∷ base)) h).files dir
unfolding swept
swept-Folders prefix listing dir base h below named names standing =
    rw (dir_of-append dir base below ((named.0).flat)) (
      All-map₂ (ancestors [] dir)
        (λ q short at.
          remove_each_other h.stays (sweep dir prefix h.staging listing) q (h.files).entries (
            All-map (sweep dir prefix h.staging listing)
              (λ p l. strip_longer p q (omega (arith, l, short)))
              (sweep-longer dir prefix h.staging listing below names))
          ∙ at)
        (ancestors-le [] dir) standing)

-- The staging directory that is made then stands, with all above it.
pub scratch-Folders :
    (prefix : Text) (listing : List DirEntry) (dir base name : Text) (h : Host)
    → IsBelow dir
    → IsName base
    → IsName name
    → All (λ e. IsName e.name) listing
    → Folders h.files dir
    → Folders
        (put (dir ++ (slash ∷ name)) folder (swept prefix listing (dir ++ (slash ∷ base)) h).files)
        (dir ++ (slash ∷ name))
scratch-Folders prefix listing dir base name h below named chosen names standing =
    let k = (swept prefix listing (dir ++ (slash ∷ base)) h).files in
    let scratch = dir ++ (slash ∷ name) in
    let made = put scratch folder k in
    Folders-name made dir name (IsBelow-nonempty dir below) ((chosen.0).flat)
      (All-map₂ (ancestors [] dir)
        (λ q short at.
          put_beside scratch q folder k
            (strip_longer scratch q (omega (arith, short, length-append dir (slash ∷ name))))
          ∙ at)
        (ancestors-le [] dir) (swept-Folders prefix listing dir base h below named names standing))
      (rw (lookup-insert, text_eq_refl scratch) refl)
