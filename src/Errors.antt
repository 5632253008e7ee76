-- ===== src/Errors.antt =====
-- client/client.go, client/fallback.go and utils/errors.go: the errors of a download, how
-- `errors.As` and `errors.Is` find one in a chain, and what a finished context and a download that
-- meets its deadline report.
use ipfs_mobile.Prelude.{ℕ, Bool, true, false, ◌||◌, Option, none, some, ◌≡◌}
use ipfs_mobile.Prelude.Text.{Text}
use ipfs_mobile.Prelude.Tests.{if◌then◌else◌}
use ipfs_mobile.Prelude.Int.{ℤ, pos}
pub mod Laws
pub mod Tests

-- The two errors that `ctx.Err()` of a finished standard context can be.
pub data ContextErr : Type 0 where
  canceled deadline_exceeded : ContextErr

-- `SizeLimitError`.
pub record SizeLimit : Type 0 where
  pub size : ℤ
  pub limit : ℤ

-- `message` is an error made by `errors.New`, or by `fmt.Errorf` without `%w`; `wrapped` one made
-- with it; `joined` what `errors.Join` makes of two errors.
pub data Error : Type 0 where
  closed : Error
  size_limit : SizeLimit → Error
  timeout : Error
  context : ContextErr → Error
  message : Text → Error
  wrapped : Text → Error → Error
  joined : Error → Error → Error

-- A Go function that returns an error beside its value.
pub data Result {ℓ} (V : Type ℓ) : Type ℓ where
  err : Error → Result V
  ok : V → Result V

abbrev pub or_else {ℓ} : {A : Type ℓ} → Option A → Option A → Option A
or_else (some a) b = some a
or_else none b = b

-- `errors.As(err, &tooBig)` for `*SizeLimitError`: the first in the order of the chain.
unfoldable pub as_size_limit : Error → Option SizeLimit
as_size_limit (size_limit s) = some s
as_size_limit (wrapped m e) = as_size_limit e
as_size_limit (joined e f) = or_else (as_size_limit e) (as_size_limit f)
as_size_limit _ = none

-- `errors.Is(err, ErrClosed)`.
unfoldable pub is_closed_err : Error → Bool
is_closed_err closed = true
is_closed_err (wrapped m e) = is_closed_err e
is_closed_err (joined e f) = is_closed_err e || is_closed_err f
is_closed_err _ = false

abbrev pub is_some {ℓ} : {A : Type ℓ} → Option A → Bool
is_some (some a) = true
is_some none = false

-- `conclusive`.
unfoldable pub conclusive : Error → Bool
conclusive e = is_some (as_size_limit e) || is_closed_err e

-- `contextError`, of what `ctx.Err()` holds.
unfoldable pub context_error : ContextErr → Error
context_error deadline_exceeded = timeout
context_error canceled = context canceled

-- `sizeLimitWithTotals`; `err` is nil where there is no error.
unfoldable pub size_limit_with_totals : Option Error → ℕ → ℤ → Option Error
size_limit_with_totals none written limit = none
size_limit_with_totals (some e) written limit = elim (as_size_limit e) [
  | none ↦ some e
  | some _ ↦ some (size_limit (record { size = pos written; limit = limit }))
]

-- What the `select` of `awaitDownload` takes first: the result of the download, with the state of
-- the context read after it, or the end of the context, with a result that may be there as well.
-- An error is `none` where it is nil.
pub data Wakeup : Type 0 where
  finished : Option Error → Option ContextErr → Wakeup
  expired : ContextErr → Option (Option Error) → Wakeup

-- `awaitDownload`.
unfoldable pub await_download : Wakeup → Option Error
await_download (finished none ctx) = none
await_download (finished (some e) none) = some e
await_download (finished (some e) (some c)) =
    if conclusive e then some e else some (context_error c)
await_download (expired c none) = some (context_error c)
await_download (expired c (some none)) = none
await_download (expired c (some (some e))) = if conclusive e then some e else some (context_error c)
