-- ===== src/Staging/Tests.antt =====
-- client/node.go: a directory with two old staging directories, and the theorems at it.
use ipfs_mobile.Prelude.{◌*◌, ◌≡◌, refl, true, false, some, [], ◌∷◌, arith, map}
use ipfs_mobile.Prelude.Text.{Text, codes, text_eq}
use ipfs_mobile.Prelude.Int.{pos}
use ipfs_mobile.Durations.{second}
use ipfs_mobile.FilePath.{clean, join, has_prefix, dot}
use ipfs_mobile.FilePath.Joined.{IsBelow, IsName}
use ipfs_mobile.Peers.{elem}
use ipfs_mobile.Staging.{scratch_prefix, ends_slash, temp_path, DirEntry, is_swept, sweep}
use ipfs_mobile.Staging.Sweeping.{Stale, sweep-spares, sweep_dotted}

abbrev name : Text
name = codes ".ipfs-download-1"

abbrev other : Text
other = codes ".ipfs-download-2"

abbrev old : Text → DirEntry
old n = record { name = n; is_dir = true; age = some (pos (7200 * second)) }

abbrev dir : Text
dir = codes "/d"

dir-IsBelow : IsBelow dir
unfolding clean text_eq
dir-IsBelow = record { is_clean = refl; not_root = λ e. cc; not_here = λ e. cc }

name-IsName : IsName name
name-IsName = (record { nonempty = λ e. cc; not_dot = λ e. cc; flat = omega arith }, λ e. cc)

sweep-spares_example :
    elem
      (join dir name)
      (sweep dir scratch_prefix (temp_path dir name ∷ []) (old name ∷ old other ∷ []))
    ≡ false
unfolding ends_slash temp_path elem text_eq
sweep-spares_example =
    sweep-spares dir name scratch_prefix (temp_path dir name ∷ []) (old name ∷ old other ∷ [])
      dir-IsBelow refl name-IsName refl

-- The one that is not registered is removed.
swept_other :
    sweep dir scratch_prefix (temp_path dir name ∷ []) (old name ∷ old other ∷ [])
    ≡ codes "/d/.ipfs-download-2" ∷ []
unfolding sweep is_swept join clean temp_path elem text_eq has_prefix
swept_other = refl

old-Stale : Stale scratch_prefix (old name)
unfolding has_prefix
old-Stale = (refl, refl, refl)

sweep_dotted_example :
    sweep dot scratch_prefix (map (temp_path dot) (name ∷ [])) (old name ∷ [])
    ≡ name ∷ sweep dot scratch_prefix (map (temp_path dot) (name ∷ [])) []
sweep_dotted_example = sweep_dotted scratch_prefix (name ∷ []) (old name) [] name-IsName old-Stale
