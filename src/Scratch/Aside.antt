-- ===== src/Scratch/Aside.antt =====
-- client/node.go, client/fallback.go: a path aside of the staging directories and the output.
use ipfs_mobile.Prelude.{
  ◌≡◌, ◌⊎◌, true, false, inl, inr, Option, none, List, [], ◌∷◌, ◌++◌, arith, sym, ◌∙◌, subst,
}
use ipfs_mobile.Prelude.Tests.{Bool-cases}
use ipfs_mobile.Prelude.Lists.{All}
use ipfs_mobile.Prelude.Text.{Text}
use ipfs_mobile.Prelude.Dict.{lookup}
use ipfs_mobile.Errors.{Error, Result, ok, err}
use ipfs_mobile.FilePath.{slash, clean, has_prefix}
use ipfs_mobile.FilePath.Joined.{IsName, IsBelow, join-name}
use ipfs_mobile.FilePath.Parents.{dir_of-append}
use ipfs_mobile.Storage.{Files, folder, put}
use ipfs_mobile.Dag.Places.{IsBelow-name}
use ipfs_mobile.Staging.{DirEntry, strip, ends_slash, is_swept, sweep, claim_scratch}
use ipfs_mobile.Scratch.{Host, swept, prepared, staging_below}
use ipfs_mobile.Scratch.Released.{scratch_of, staging_below_other}
use ipfs_mobile.Scratch.Upward.{remove_each_other}
use ipfs_mobile.Scratch.Filled.{scratch_of-name}

-- A path that is neither at nor below the directory that MkdirTemp makes, if it makes one.
abbrev pub NameAside : Text → Text → Result Text → Type 0
NameAside dir q (ok name) = IsName name × (strip (dir ++ (slash ∷ name)) q ≡ none)
NameAside dir q (err e) = Unit

-- The directory lists names, and a path is at or below none of those with this prefix.
abbrev pub Spared : Text → Text → Text → List DirEntry → Type 0
Spared dir prefix q = All (λ e.
    IsName e.name
    × ((has_prefix e.name prefix ≡ false) ⊎ (strip (dir ++ (slash ∷ e.name)) q ≡ none)))

-- The output's directory is clean and does not end with a slash, the output is a name in it, and a
-- path is neither at nor below the output.
pub record Elsewhere (dir base q : Text) : Type 0 where
  pub below : IsBelow dir
  pub slashless : ends_slash dir ≡ false
  pub base_name : IsName base
  pub elsewhere : strip (dir ++ (slash ∷ base)) q ≡ none

is_swept-prefix :
    (dir prefix : Text) (live : List Text) (e : DirEntry)
    → is_swept dir prefix live e ≡ true
    → has_prefix e.name prefix ≡ true
unfolding is_swept
is_swept-prefix dir prefix live e h = ground arith

sweep-Spared :
    (dir prefix q : Text) (live : List Text) (listing : List DirEntry)
    → IsBelow dir
    → Spared dir prefix q listing
    → All (λ p. strip p q ≡ none) (sweep dir prefix live listing)
unfolding sweep
sweep-Spared dir prefix q live [] below h = tt
sweep-Spared dir prefix q live (e ∷ rest) below ((name, spared), hs) =
    let rec = sweep-Spared dir prefix q live rest below hs in
    elim (Bool-cases (is_swept dir prefix live e)) [
      | inr b ↦ rw b rec
      | inl b ↦ rw b (
        subst (λ p. strip p q ≡ none) (sym (join-name dir e.name below name)) (apart spared b),
        rec,
      )
    ]
  where
    apart :
        (has_prefix e.name prefix ≡ false) ⊎ (strip (dir ++ (slash ∷ e.name)) q ≡ none)
        → is_swept dir prefix live e ≡ true
        → strip (dir ++ (slash ∷ e.name)) q ≡ none
    apart (inl n) b = absurd (cc (sym n ∙ is_swept-prefix dir prefix live e b))
    apart (inr a) b = a

module _ (prefix : Text) (listing : List DirEntry) (dir base q : Text) (h : Host)
    (work : Text → Files → Files × Option Error) (elsewhere : Elsewhere dir base q)
    (spared : Spared dir prefix q listing) where
  abbrev output : Text
  output = dir ++ (slash ∷ base)

  abbrev k : Host
  k = swept prefix listing output h

  swept_other : lookup q (k.files).entries ≡ lookup q (h.files).entries
  unfolding swept
  swept_other = remove_each_other h.stays _ q (h.files).entries (
      subst (λ d. All (λ p. strip p q ≡ none) (sweep d prefix h.staging listing))
        (sym (dir_of-append dir base elsewhere.below ((elsewhere.base_name).0).flat))
        (sweep-Spared dir prefix q h.staging listing elsewhere.below spared))

  -- The work leaves the path alone in every staging directory that the path is aside of.
  abbrev pub Careful : Type 0
  Careful =
      (name : Text)
      → IsName name
      → strip (dir ++ (slash ∷ name)) q ≡ none
      → lookup q
          ((work (dir ++ (slash ∷ name)) (put (dir ++ (slash ∷ name)) folder k.files)).0).entries
        ≡ lookup q (k.files).entries

  Alone : Text → Type 0
  Alone at =
      (strip (clean at) q ≡ none)
      × (lookup q ((work at (prepared at k)).0).entries ≡ lookup q (k.files).entries)

  -- Such work leaves the path alone with the sweep, the claim and the release around it.
  pub staging_below_aside :
      (chosen : Result Text)
      → NameAside dir q chosen
      → Careful
      → lookup q (((staging_below work output k chosen).0).files).entries
        ≡ lookup q (h.files).entries
  unfolding staging_below Alone swept claim_scratch
  staging_below_aside (err e) aside careful = swept_other
  staging_below_aside (ok name) (named, aside) careful =
      let scratch = dir ++ (slash ∷ name) in
      let below = IsBelow-name dir name elsewhere.below named in
      let there : Alone (scratch_of output name) =
        subst Alone
          (sym
            (scratch_of-name dir base name elsewhere.below elsewhere.slashless elsewhere.base_name))
          (rw (below.is_clean) (aside, careful name named aside)) in
      staging_below_other work output k name q there.0 ∙ there.1 ∙ swept_other
