-- ===== src/Fetching/Above.antt =====
-- client/client.go: what is above the output's directory is aside of all that Get writes.
use ipfs_mobile.Prelude.{◌≤◌, ◌≡◌, inr, List, [], ◌∷◌, ◌++◌, arith, ◌∙◌}
use ipfs_mobile.Prelude.Lists.{length, length-append, All-map, All-map₂}
use ipfs_mobile.Prelude.Text.{Text}
use ipfs_mobile.Prelude.Dict.{lookup}
use ipfs_mobile.Errors.{Result, ok, err}
use ipfs_mobile.FilePath.{slash}
use ipfs_mobile.Storage.{Files}
use ipfs_mobile.Tar.{ancestors}
use ipfs_mobile.Tar.Folders.{Folders}
use ipfs_mobile.Staging.{DirEntry, scratch_prefix, gateway_scratch_prefix}
use ipfs_mobile.Scratch.Upward.{strip_longer, ancestors-le}
use ipfs_mobile.Scratch.Aside.{NameAside, Spared, Elsewhere}
use ipfs_mobile.Fetching.{Reply, no_reply, reply, Work, not_acquired, downloading}

-- A path is aside of the staging directories of a reply, and of those of the primary phase.
abbrev pub ReplyAside : Text → Text → Reply → Type 0
ReplyAside dir q (no_reply e) = Unit
ReplyAside dir q (reply host status retry a) =
    NameAside dir q a.scratch_name × Spared dir gateway_scratch_prefix q a.listing

abbrev pub WorkAside : Text → Text → Work → Type 0
WorkAside dir q (not_acquired e) = Unit
WorkAside dir q (downloading s) =
    NameAside dir q s.scratch_name × Spared dir scratch_prefix q s.listing

-- What is above the directory is aside of all.
pub above-NameAside :
    (dir q p : Text) (n : Result Text)
    → length p ≤ length dir
    → NameAside dir q n
    → NameAside dir p n
above-NameAside dir q p (err e) short h = tt
above-NameAside dir q p (ok name) short (named, h) = (
  named,
  strip_longer (dir ++ (slash ∷ name)) p (omega (arith, short, length-append dir (slash ∷ name))),
)

pub above-Spared :
    (dir prefix q p : Text) (listing : List DirEntry)
    → length p ≤ length dir
    → Spared dir prefix q listing
    → Spared dir prefix p listing
above-Spared dir prefix q p listing short = All-map listing (λ e s. (
  s.0,
  inr (
      strip_longer (dir ++ (slash ∷ e.name)) p
        (omega (arith, short, length-append dir (slash ∷ e.name)))),
))

module _ (dir base q : Text) (elsewhere : Elsewhere dir base q) where
  abbrev output : Text
  output = dir ++ (slash ∷ base)

  pub above-Elsewhere : (p : Text) → length p ≤ length dir → Elsewhere dir base p
  above-Elsewhere p short = record {
    below = elsewhere.below;
    slashless = elsewhere.slashless;
    base_name = elsewhere.base_name;
    elsewhere = strip_longer output p (omega (arith, short, length-append dir (slash ∷ base)));
  }

  pub above-Folders :
      (fs fs' : Files)
      → ((p : Text) → length p ≤ length dir → lookup p fs'.entries ≡ lookup p fs.entries)
      → Folders fs dir
      → Folders fs' dir
  above-Folders fs fs' same standing =
      All-map₂ (ancestors [] dir) (λ p short at. same p (omega (arith, short)) ∙ at)
        (ancestors-le [] dir) standing
