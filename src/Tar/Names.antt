-- ===== src/Tar/Names.antt =====
-- client/fallback.go: where `resolveTarPath` places an entry.
use ipfs_mobile.Prelude.{
  ◌≡◌, inl, inr, refl, Bool, true, false, List, [], ◌∷◌, ◌++◌, arith, ap, sym, subst, ◌∙◌, ◌&&◌,
  not,
}
use mathlib.Core.List.{append_assoc, append-nil}
use ipfs_mobile.FilePath.Pieces.{turn-turn}
use ipfs_mobile.Prelude.Tests.{if◌then◌else◌, Bool-cases}
use ipfs_mobile.Prelude.Lists.{All, All-map}
use ipfs_mobile.Prelude.Text.{Text, text_eq, text_eq_iff, codes}
use ipfs_mobile.Errors.{Result, ok, err, message}
use ipfs_mobile.FilePath.{
  join, split, visit, visit_all, has_prefix, slash, join_slash, turn, elements, clean, render,
}
use ipfs_mobile.FilePath.Cleaned.{split-elements}
use ipfs_mobile.FilePath.Joined.{
  IsName, IsBelow, clean-rooted, join-names, join-name, visit_all-names,
}
use ipfs_mobile.Tar.{resolve_tar_path, resolve_cleaned}

pub has_prefix-append : (p s : Text) → has_prefix (p ++ s) p ≡ true
unfolding has_prefix
has_prefix-append [] s = refl
has_prefix-append (c ∷ p) s = ground (arith, has_prefix-append p s)

-- The entry is below `dir`, by names none of which is "", ".", ".." or holds a slash, and its top
-- level path is the first of them below `dir`; or it is refused, where its name has no element.
abbrev pub Placed : Text → Text → Result (Text × Text) → Type 0
Placed dir name (ok (path, top)) =
    (c : Text) × (cs : List Text) × All IsName (c ∷ cs)
    × (path ≡ dir ++ (slash ∷ join_slash (c ∷ cs)))
    × (top ≡ dir ++ (slash ∷ c))
    × (turn (c ∷ cs) [] ≡ elements (slash ∷ name))
Placed dir name (err e) = elements (slash ∷ name) ≡ []

passes : (b : Bool) (x y : Result (Text × Text)) → (if not b && not true then x else y) ≡ y
passes true x y = refl
passes false x y = refl

-- A clean path of names is placed at the names.
resolve_cleaned-names :
    (dir c : Text) (cs : List Text)
    → IsBelow dir
    → All IsName (c ∷ cs)
    → resolve_cleaned dir (slash ∷ join_slash (c ∷ cs))
      ≡ ok (dir ++ (slash ∷ join_slash (c ∷ cs)), dir ++ (slash ∷ c))
resolve_cleaned-names dir c cs below names =
    let path = dir ++ (slash ∷ join_slash (c ∷ cs)) in
    rw
      (
        join-names dir c cs below names,
        inside,
        passes (text_eq path dir),
        split_at,
        nonempty,
        join-name dir c below names.0,
      )
      refl
  where
    inside : has_prefix (dir ++ (slash ∷ join_slash (c ∷ cs))) (dir ++ (slash ∷ [])) ≡ true
    inside =
        ap (λ t. has_prefix t (dir ++ (slash ∷ [])))
          (sym (append_assoc dir (slash ∷ []) (join_slash (c ∷ cs))))
        ∙ has_prefix-append (dir ++ (slash ∷ [])) (join_slash (c ∷ cs))

    split_at : split slash (join_slash (c ∷ cs)) ≡ c ∷ cs
    split_at = split-elements c cs (All-map (c ∷ cs) (λ d n. n.0) names)

    nonempty : text_eq c [] ≡ false
    nonempty = elim (Bool-cases (text_eq c [])) [
      | inl h ↦ absurd (((names.0).0).nonempty ((text_eq_iff c []).0 h))
      | inr h ↦ h
    ]

resolve_names :
    (dir name : Text) (cs : List Text)
    → IsBelow dir
    → All IsName cs
    → turn cs [] ≡ elements (slash ∷ name)
    → Placed dir name (resolve_cleaned dir (slash ∷ join_slash cs))
unfolding turn
resolve_names dir name [] below names e =
    unfold join_slash split text_eq in
    (nowhere (
      not (text_eq (join dir (slash ∷ [])) dir)
      && not (has_prefix (join dir (slash ∷ [])) (dir ++ (slash ∷ [])))))
  where
    nowhere :
        (b : Bool)
        → Placed dir name (
            if b
            then err (message (codes "tar entry escapes the staging directory"))
            else err (message (codes "tar entry has no top level name")))
    nowhere true = sym e
    nowhere false = sym e
resolve_names dir name (c ∷ cs) below names e =
    subst (Placed dir name) (sym (resolve_cleaned-names dir c cs below names))
      (c, cs, names, refl, refl, e)

-- Below a staging directory in clean form that is neither the root nor the working directory,
-- resolveTarPath places every entry name at names below the directory, none of them empty, ".",
-- ".." or with a slash, with the top level path at the first of them, and refuses a name only if
-- it has no element.
pub resolve_tar_path-Placed :
    (dir name : Text) → IsBelow dir → Placed dir name (resolve_tar_path dir name)
unfolding resolve_tar_path
resolve_tar_path-Placed dir [] below = unfold split visit_all visit text_eq in refl
resolve_tar_path-Placed dir (x ∷ name) below =
    let (cs, names, e, order) = clean-rooted (x ∷ name) in
    rw e (resolve_names dir (x ∷ name) cs below names order)

clean-names :
    (c : Text) (cs : List Text)
    → All IsName (c ∷ cs)
    → clean (slash ∷ join_slash (c ∷ cs)) ≡ slash ∷ join_slash (c ∷ cs)
unfolding clean split visit text_eq
clean-names c cs names =
    let ds : List Text = c ∷ cs in
    ap (λ st. render true st)
      (ap (visit_all true []) (split-elements c cs (All-map ds (λ d n. n.0) names))
        ∙ visit_all-names true [] ds names)
    ∙ ap (λ us. slash ∷ join_slash us) (turn-turn ds [] [] ∙ append-nil ds)

-- A path of names that an archive gives goes to those names below the directory.
pub resolve_tar_path-names :
    (dir c : Text) (cs : List Text)
    → IsBelow dir
    → All IsName (c ∷ cs)
    → resolve_tar_path dir (join_slash (c ∷ cs))
      ≡ ok (dir ++ (slash ∷ join_slash (c ∷ cs)), dir ++ (slash ∷ c))
unfolding resolve_tar_path join_slash
resolve_tar_path-names dir [] cs below names = absurd (((names.0).0).nonempty refl)
resolve_tar_path-names dir (x ∷ c) [] below names =
    ap (resolve_cleaned dir) (clean-names (x ∷ c) [] names)
    ∙ resolve_cleaned-names dir (x ∷ c) [] below names
resolve_tar_path-names dir (x ∷ c) (d ∷ cs) below names =
    ap (resolve_cleaned dir) (clean-names (x ∷ c) (d ∷ cs) names)
    ∙ resolve_cleaned-names dir (x ∷ c) (d ∷ cs) below names
