-- ===== src/Errors/Laws.antt =====
-- What a download that meets its deadline reports.
use ipfs_mobile.Prelude.{true, Option, none, some, ◌≡◌, arith, ◌↔◌}
use ipfs_mobile.Errors.{Error, ContextErr, Wakeup, finished, expired, conclusive, await_download}

-- What has arrived on the result channel when `awaitDownload` returns, and the context then.
abbrev pub arrived : Wakeup → Option (Option Error)
arrived (finished r c) = some r
arrived (expired c r) = r

abbrev pub context_at : Wakeup → Option ContextErr
context_at (finished r c) = c
context_at (expired c r) = some c

-- awaitDownload reports success exactly where a download that succeeded is on the result channel,
-- whichever case of its select ran.
pub await_download-success : (w : Wakeup) → (await_download w ≡ none) ↔ (arrived w ≡ some none)
unfolding await_download
await_download-success (finished none c) = ground arith
await_download-success (finished (some e) none) = ground arith
await_download-success (finished (some e) (some c)) = ground arith
await_download-success (expired c none) = ground arith
await_download-success (expired c (some none)) = ground arith
await_download-success (expired c (some (some e))) = ground arith

-- With a result on the channel and the context at its end, awaitDownload reports the same
-- whichever case of its select comes first.
pub await_download-order :
    (r : Option Error) (c : ContextErr)
    → await_download (finished r (some c)) ≡ await_download (expired c (some r))
unfolding await_download
await_download-order none c = ground arith
await_download-order (some e) c = ground arith

-- Where a conclusive failure is on the result channel, awaitDownload reports that failure and not
-- the timeout.
pub await_download-conclusive :
    (w : Wakeup) (e : Error)
    → arrived w ≡ some (some e)
    → conclusive e ≡ true
    → await_download w ≡ some e
unfolding await_download
await_download-conclusive (finished none c) e h k = cc
await_download-conclusive (finished (some e') none) e h k = ground arith
await_download-conclusive (finished (some e') (some c)) e h k = ground arith
await_download-conclusive (expired c none) e h k = cc
await_download-conclusive (expired c (some none)) e h k = ground arith
await_download-conclusive (expired c (some (some e'))) e h k = ground arith
