-- ===== src/Errors/Tests.antt =====
-- client/client.go: `awaitDownload` at a download that fails as its deadline passes.
use ipfs_mobile.Prelude.{some}
use ipfs_mobile.Prelude.Int.{pos}
use ipfs_mobile.Prelude.Text.{codes}
use ipfs_mobile.Errors.{Error, Wakeup, size_limit, wrapped, deadline_exceeded, expired}

abbrev too_big : Error
too_big = wrapped (codes "writing") (size_limit (record { size = pos 6; limit = pos 5 }))

abbrev late : Wakeup
late = expired deadline_exceeded (some (some too_big))
