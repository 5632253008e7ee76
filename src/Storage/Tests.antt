-- ===== src/Storage/Tests.antt =====
-- client/fallback.go: `writeLimited` at small inputs.
use ipfs_mobile.Prelude.{◌≡◌, refl, none, []}
use ipfs_mobile.Prelude.Text.{codes}
use ipfs_mobile.Prelude.Dict.{lookup, insert}
use ipfs_mobile.Prelude.Int.{pos}
use ipfs_mobile.Storage.{Files, Body, file, put, max_i64, write_limited}
use ipfs_mobile.Storage.Limits.{write_limited-max}

abbrev empty_disk : Files
empty_disk = record { entries = []; refuses = λ p. none }

abbrev greeting : Body
greeting = record { bytes = codes "hello"; failure = none }

too_long : (write_limited empty_disk (codes "/s/data") greeting (pos 3)).count ≡ 4
unfolding write_limited lookup insert
too_long = refl

write_limited-max_example :
    write_limited empty_disk (codes "/s/data") greeting (pos max_i64)
    ≡ record { files = put (codes "/s/data") (file []) empty_disk; count = 0; failure = none }
unfolding lookup
write_limited-max_example = write_limited-max empty_disk (codes "/s/data") greeting refl refl
