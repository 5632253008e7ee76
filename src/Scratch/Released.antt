-- ===== src/Scratch/Released.antt =====
-- client/node.go and client/fallback.go: a staging directory is given back on every path.
use ipfs_mobile.Prelude.{◌≡◌, refl, Bool, false, Option, none, List, [], ◌∷◌, ◌++◌, arith}
use ipfs_mobile.Prelude.Text.{Text, text_eq_refl}
use ipfs_mobile.Prelude.Dict.{Dict, lookup}
use ipfs_mobile.Errors.{Error, Result, ok, err}
use ipfs_mobile.FilePath.{clean, dir_of}
use ipfs_mobile.Storage.{Files, Entry}
use ipfs_mobile.Peers.{elem}
use ipfs_mobile.Staging.{strip, temp_path, claim_scratch, unregister, DirEntry, sweep}
use ipfs_mobile.Staging.Subtree.{IsTail, strip-append}
use ipfs_mobile.Replacement.{remove_some}
use ipfs_mobile.Replacement.Survivors.{remove_some_under, remove_some_other, remove_some_absent}
use ipfs_mobile.Scratch.{Host, remove_each, swept, release, prepared, with_scratch, staging_below}

unregister_absent : (p : Text) (qs : List Text) → elem p qs ≡ false → unregister p qs ≡ qs
unfolding unregister elem
unregister_absent p [] h = refl
unregister_absent p (q ∷ qs) h = ground (arith, unregister_absent p qs)

unregister_claimed : (p : Text) (qs : List Text) → elem p qs ≡ false → unregister p (p ∷ qs) ≡ qs
unfolding unregister
unregister_claimed p qs h = rw (text_eq_refl p) (unregister_absent p qs h)

-- `MkdirTemp` chooses a path that is not registered.
abbrev pub Fresh : Text → List Text → Result Text → Type 0
Fresh dir staging (ok name) = elem (temp_path dir name) staging ≡ false
Fresh dir staging (err e) = Unit {0}

-- The path of the staging directory.
abbrev pub scratch_of : Text → Text → Text
scratch_of output name = temp_path (dir_of output) name

module _ (body : Text → Files → Files × Option Error) (output : Text) (h : Host) where
  -- The registry is as it was before the claim.
  pub staging_below-staging :
      (chosen : Result Text)
      → Fresh (dir_of output) h.staging chosen
      → ((staging_below body output h chosen).0).staging ≡ h.staging
  unfolding staging_below with_scratch claim_scratch release
  staging_below-staging (err e) f = refl
  staging_below-staging (ok name) f = unregister_claimed (scratch_of output name) h.staging f

  -- Nothing is left at and below the staging directory, but what could not be removed.
  pub staging_below_nothing :
      (name t : Text)
      → IsTail t
      → h.stays (clean (scratch_of output name) ++ t) ≡ false
      → lookup
          (clean (scratch_of output name) ++ t)
          (((staging_below body output h (ok name)).0).files).entries
        ≡ none
  unfolding staging_below with_scratch claim_scratch release
  staging_below_nothing name t tail gone =
      remove_some_under h.stays (clean (scratch_of output name)) _ t _ gone
        (strip-append (clean (scratch_of output name)) t tail)

  -- Outside the staging directory is what the work in it left.
  pub staging_below_other :
      (name q : Text)
      → strip (clean (scratch_of output name)) q ≡ none
      → lookup q (((staging_below body output h (ok name)).0).files).entries
        ≡ lookup q ((body (scratch_of output name) (prepared (scratch_of output name) h)).0).entries
  unfolding staging_below with_scratch claim_scratch release
  staging_below_other name q outside =
      remove_some_other h.stays (clean (scratch_of output name)) q _ outside

  -- The error is that of the work.
  pub staging_below-failure :
      (name : Text)
      → (staging_below body output h (ok name)).1
        ≡ (body (scratch_of output name) (prepared (scratch_of output name) h)).1
  unfolding staging_below with_scratch claim_scratch
  staging_below-failure name = refl

remove_each_absent :
    (stays : Text → Bool) (ps : List Text) (q : Text) (es : Dict Entry)
    → lookup q es ≡ none
    → lookup q (remove_each stays ps es) ≡ none
unfolding remove_each
remove_each_absent stays [] q es h = h
remove_each_absent stays (p ∷ ps) q es h =
    remove_each_absent stays ps q (remove_some stays p es) (remove_some_absent stays p q es h)

-- A sweep adds no file.
pub swept_absent :
    (prefix : Text) (listing : List DirEntry) (output q : Text) (h : Host)
    → lookup q (h.files).entries ≡ none
    → lookup q ((swept prefix listing output h).files).entries ≡ none
unfolding swept
swept_absent prefix listing output q h absent =
    remove_each_absent h.stays (sweep (dir_of output) prefix h.staging listing) q (h.files).entries
      absent

-- A sweep leaves what cannot be removed as it is.
pub swept-stays :
    (prefix : Text) (listing : List DirEntry) (output : Text) (h : Host)
    → (swept prefix listing output h).stays ≡ h.stays
unfolding swept
swept-stays prefix listing output h = refl

pub swept-refuses :
    (prefix : Text) (listing : List DirEntry) (output : Text) (h : Host)
    → ((swept prefix listing output h).files).refuses ≡ (h.files).refuses
unfolding swept
swept-refuses prefix listing output h = refl

-- A sweep claims nothing.
pub swept-staging :
    (prefix : Text) (listing : List DirEntry) (output : Text) (h : Host)
    → (swept prefix listing output h).staging ≡ h.staging
unfolding swept
swept-staging prefix listing output h = refl
