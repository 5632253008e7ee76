-- ===== src/FilePath/Parents.antt =====
-- The directory of a path that a clean directory and a name spell.
use ipfs_mobile.Prelude.{◌≡◌, refl, [], ◌∷◌, ◌++◌, ap, ap₂, ◌∙◌, arith}
use ipfs_mobile.Prelude.Text.{Text, text_eq}
use ipfs_mobile.FilePath.{
  split, slash, visit, visit_all, render, is_rooted, elements, clean, until_slash, dir_of,
}
use ipfs_mobile.FilePath.Pieces.{Lacks, split-slash, visit_all-append}
use ipfs_mobile.FilePath.Joined.{IsBelow, IsBelow-nonempty, is_rooted-append}

until_slash-flat : (c : Text) → Lacks slash c → until_slash c ≡ []
unfolding until_slash text_eq
until_slash-flat [] h = refl
until_slash-flat (x ∷ c) (h, hs) = ground (arith, until_slash-flat c hs)

until_slash-append :
    (d c : Text) → Lacks slash c → until_slash (d ++ (slash ∷ c)) ≡ d ++ (slash ∷ [])
unfolding until_slash text_eq
until_slash-append [] c h = rw (until_slash-flat c h)
until_slash-append (x ∷ []) c h = rw (until_slash-append [] c h) (ground arith)
until_slash-append (x ∷ y ∷ d) c h = rw (until_slash-append (y ∷ d) c h) (ground arith)

clean-slashed : (dir : Text) → IsBelow dir → clean (dir ++ (slash ∷ [])) ≡ dir
unfolding clean
clean-slashed dir below =
    ap₂ render (is_rooted-append dir [] (IsBelow-nonempty dir below)) same ∙ below.is_clean
  where
    same : elements (dir ++ (slash ∷ [])) ≡ elements dir
    same =
        rw
          (
            is_rooted-append dir [] (IsBelow-nonempty dir below),
            split-slash dir [],
            visit_all-append (is_rooted dir) [] (split slash dir) (split slash []),
          )
          (unfold split visit_all visit text_eq in refl)

-- filepath.Dir of a name in a clean directory is that directory.
pub dir_of-append : (dir c : Text) → IsBelow dir → Lacks slash c → dir_of (dir ++ (slash ∷ c)) ≡ dir
unfolding dir_of
dir_of-append dir c below flat = ap clean (until_slash-append dir c flat) ∙ clean-slashed dir below
