-- ===== src/FilePath/Tests.antt =====
-- Clean at the examples of the Go documentation, and its theorem.
use ipfs_mobile.Prelude.{◌≡◌, refl}
use ipfs_mobile.Prelude.Text.{codes, text_eq}
use ipfs_mobile.FilePath.{clean, dir_of}

climbed : clean (codes "a//b/../../../c/.") ≡ codes "../c"
unfolding clean text_eq
climbed = refl

rooted : clean (codes "/../a/b") ≡ codes "/a/b"
unfolding clean text_eq
rooted = refl

here : dir_of (codes "out.bin") ≡ codes "."
unfolding dir_of text_eq
here = refl
