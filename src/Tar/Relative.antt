-- ===== src/Tar/Relative.antt =====
-- client/fallback.go: `resolveTarPath` below a staging directory that is written with a leading
-- "./", as `os.MkdirTemp` writes the one that it makes in ".".
use ipfs_mobile.Prelude.{
  ◌≡◌, ◌≢◌, refl, Bool, true, false, List, [], ◌∷◌, ◌++◌, arith, ◌&&◌, not, inl, inr,
}
use ipfs_mobile.Prelude.Tests.{if◌then◌else◌, Bool-cases}
use ipfs_mobile.Prelude.Lists.{All}
use ipfs_mobile.Prelude.Text.{Text, text_eq, text_eq_iff, codes}
use ipfs_mobile.Errors.{Error, err, message}
use ipfs_mobile.FilePath.{
  clean, join, split, has_prefix, trim_slash, slash, join_slash, turn, elements, render,
  render_relative, is_rooted,
}
use ipfs_mobile.FilePath.Cleaned.{IsElement, elements-IsCanonical, in_order, IsCanonical}
use ipfs_mobile.Tar.{resolve_tar_path, resolve_cleaned, top_of}

has_prefix-parts : (s p : Text) → has_prefix s p ≡ true → (t : Text) × (s ≡ p ++ t)
unfolding has_prefix
has_prefix-parts s [] h = (s, refl)
has_prefix-parts [] (d ∷ p) h = cc
has_prefix-parts (c ∷ s) (d ∷ p) h =
    let (t, e) = has_prefix-parts s p (ground arith) in (t, ground arith)

relative_not_dotted :
    (cs : List Text) (s : Text) → All IsElement cs → render_relative cs ≢ (b'.' ∷ slash ∷ s)
unfolding join_slash
relative_not_dotted [] s h e = cc
relative_not_dotted ([] ∷ cs) s h e = (h.0).nonempty refl
relative_not_dotted ((x ∷ []) ∷ []) s h e = cc
relative_not_dotted ((x ∷ []) ∷ d ∷ cs) s h e = (h.0).not_dot (cc)
relative_not_dotted ((x ∷ y ∷ c) ∷ []) s h e = ((h.0).flat).1.0 (cc)
relative_not_dotted ((x ∷ y ∷ c) ∷ d ∷ cs) s h e = ((h.0).flat).1.0 (cc)

rendered_not_dotted :
    (r : Bool) (st : List Text) (s : Text) → IsCanonical r st → render r st ≢ (b'.' ∷ slash ∷ s)
rendered_not_dotted true st s h e = ground arith
rendered_not_dotted false st s h e =
    relative_not_dotted (turn st []) s (in_order false st (turn st []) refl h).0 e

-- `Clean` never leaves a leading "./".
pub clean_not_dotted : (p s : Text) → clean p ≢ (b'.' ∷ slash ∷ s)
unfolding clean
clean_not_dotted p s = rendered_not_dotted (is_rooted p) (elements p) s (elements-IsCanonical p)

-- So no path that `Join` makes below it has it as a prefix.
refused_below :
    (dir path : Text) (es : List Text)
    → path ≢ dir
    → ((t : Text) → path ≢ (dir ++ (slash ∷ [])) ++ t)
    → (e : Error) × ((if not (text_eq path dir) && not (has_prefix path (dir ++ (slash ∷ [])))
          then err (message (codes "tar entry escapes the staging directory"))
          else top_of dir path es)
        ≡ err e)
refused_below dir path es ne out =
    (message (codes "tar entry escapes the staging directory"), rw (differs, outside) refl)
  where
    differs : text_eq path dir ≡ false
    differs = elim (Bool-cases (text_eq path dir)) [
      | inl h ↦ absurd (ne ((text_eq_iff path dir).0 h))
      | inr h ↦ h
    ]

    outside : has_prefix path (dir ++ (slash ∷ [])) ≡ false
    outside = elim (Bool-cases (has_prefix path (dir ++ (slash ∷ [])))) [
      | inl h ↦ let (t, e) = has_prefix-parts path (dir ++ (slash ∷ [])) h in absurd (out t e)
      | inr h ↦ h
    ]

-- Below a staging directory whose path starts with "./", resolveTarPath refuses every entry,
-- whatever its name.
pub resolve_tar_path_dotted :
    (scratch name : Text) → (e : Error) × (resolve_tar_path (b'.' ∷ slash ∷ scratch) name ≡ err e)
unfolding resolve_tar_path join
resolve_tar_path_dotted scratch [] = (message (codes "tar entry has no name"), refl)
resolve_tar_path_dotted scratch (c ∷ name) = go (clean (slash ∷ c ∷ name)) refl
  where
    dir : Text
    dir = b'.' ∷ slash ∷ scratch

    go :
        (cleaned : Text)
        → clean (slash ∷ c ∷ name) ≡ cleaned
        → (e : Error) × (resolve_cleaned dir cleaned ≡ err e)
    go [] h =
        refused_below dir (clean dir) (split slash []) (clean_not_dotted dir scratch)
          (λ t. clean_not_dotted dir _)
    go (d ∷ t) h =
        refused_below dir (clean (dir ++ (slash ∷ d ∷ t))) (split slash (trim_slash (d ∷ t)))
          (clean_not_dotted (dir ++ (slash ∷ d ∷ t)) scratch)
          (λ u. clean_not_dotted (dir ++ (slash ∷ d ∷ t)) ((scratch ++ (slash ∷ [])) ++ u))
