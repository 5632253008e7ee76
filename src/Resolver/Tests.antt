-- ===== src/Resolver/Tests.antt =====
-- client/resolver.go: a cache with one answer, and the theorems at it.
use ipfs_mobile.Prelude.{◌≡◌, refl, false, some, [], ◌∷◌}
use ipfs_mobile.Prelude.Text.{codes, text_eq}
use ipfs_mobile.Prelude.Dict.{lookup}
use ipfs_mobile.Resolver.{TxtCache, cache_lookup}

abbrev one : TxtCache
one = (codes "a", record { records = codes "r" ∷ []; until = 50 }) ∷ []

differ : text_eq (codes "b") (codes "a") ≡ false
unfolding text_eq
differ = refl

held : cache_lookup one 9 (codes "a") ≡ some (codes "r" ∷ [])
unfolding cache_lookup lookup text_eq
held = refl
