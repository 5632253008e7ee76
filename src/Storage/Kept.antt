-- ===== src/Storage/Kept.antt =====
-- client/fallback.go: a file that is created exclusively leaves all that stood before.
use ipfs_mobile.Prelude.{false, ◌≡◌, refl, inl, inr, Option, none, some, ap, ◌∙◌, sym, arith}
use ipfs_mobile.Prelude.Tests.{Bool-cases}
use ipfs_mobile.Prelude.Text.{Text, text_eq, text_eq_iff}
use ipfs_mobile.Prelude.Dict.{lookup, lookup-insert}
use ipfs_mobile.Prelude.Int.{ℤ, pos, negsuc}
use ipfs_mobile.Errors.{Error}
use ipfs_mobile.Storage.{
  Files, Body, Written, Entry, put, copied, checked, write_unless, write_limited, may_create,
  limited, inc_i64,
}

-- Whatever stood somewhere stands there still.
abbrev pub Keeps : Files → Files → Type 0
Keeps fs fs' = (q : Text) (e : Entry) → lookup q fs.entries ≡ some e → lookup q fs'.entries ≡ some e

pub put-Keeps :
    (path : Text) (e : Entry) (fs : Files)
    → lookup path fs.entries ≡ none
    → Keeps fs (put path e fs)
put-Keeps path e fs free q e' h = elim (Bool-cases (text_eq path q)) [
  | inl same ↦
      absurd (cc (sym free ∙ ap (λ p. lookup p fs.entries) ((text_eq_iff path q).0 same) ∙ h))
  | inr apart ↦ rw (lookup-insert, apart) h
]

-- Nothing stands where the operating system creates an entry.
pub may_create-none :
    (fs : Files) (path : Text) (r : Option Error) (o : Option Entry)
    → may_create fs path r o ≡ none
    → (o ≡ none) × (r ≡ none)
may_create-none fs path r none h = (refl, h)
may_create-none fs path r (some e) h = cc

checked-files : (limit : ℤ) (w : Written) (f : Option Error) → (checked limit w f).files ≡ w.files
checked-files limit w (some e) = refl
checked-files limit w none = ground arith

pub write_limited-Keeps :
    (fs : Files) (path : Text) (b : Body) (limit : ℤ)
    → Keeps fs (write_limited fs path b limit).files
unfolding write_limited
write_limited-Keeps fs path b limit =
    created (may_create fs path (fs.refuses path) (lookup path fs.entries)) refl limit
  where
    created :
        (o : Option Error)
        → may_create fs path (fs.refuses path) (lookup path fs.entries) ≡ o
        → (limit : ℤ) → Keeps fs (write_unless o fs path b limit).files
    created (some e) h limit q e' k = k
    created none h (negsuc n) q e' k = put-Keeps path _ fs (may_create-none fs path _ _ h).0 q e' k
    created none h (pos n) q e' k =
        ap (λ fs'. lookup q fs'.entries)
          (checked-files (pos n) (copied fs path (limited (inc_i64 (pos n)) b)) _)
        ∙ put-Keeps path _ fs (may_create-none fs path _ _ h).0 q e' k

-- A write changes nothing at another path.
pub write_limited_beside :
    (fs : Files) (path q : Text) (b : Body) (limit : ℤ)
    → text_eq path q ≡ false
    → lookup q ((write_limited fs path b limit).files).entries ≡ lookup q fs.entries
unfolding write_limited
write_limited_beside fs path q b limit apart =
    created (may_create fs path (fs.refuses path) (lookup path fs.entries)) limit
  where
    created :
        (o : Option Error) (limit : ℤ)
        → lookup q ((write_unless o fs path b limit).files).entries ≡ lookup q fs.entries
    created (some e) limit = refl
    created none (negsuc n) = rw (lookup-insert, apart) refl
    created none (pos n) =
        ap (λ fs'. lookup q fs'.entries)
          (checked-files (pos n) (copied fs path (limited (inc_i64 (pos n)) b)) _)
        ∙ rw (lookup-insert, apart) refl
