-- ===== src/Staging/Subtree.antt =====
-- What a rename and a removal of a subtree leave at every path.
use ipfs_mobile.Prelude.{
  ◌≡◌, refl, false, inl, inr, none, some, [], ◌∷◌, ◌++◌, arith, ap, sym, ◌∙◌, none-ne-some, subst,
  append_assoc,
}
use ipfs_mobile.Prelude.Tests.{◌==◌, if◌then◌else◌, Bool-cases, Option-cases}
use ipfs_mobile.Prelude.Text.{Text, text_eq, text_eq_iff}
use ipfs_mobile.Prelude.Dict.{Dict, lookup}
use ipfs_mobile.Staging.{tail_of, strip, remove_all, rename}

-- A tail: nothing, or a slash and more.
abbrev pub IsTail : Text → Type 0
IsTail s = tail_of s ≡ some s

pub strip-append : (p s : Text) → IsTail s → strip p (p ++ s) ≡ some s
unfolding strip
strip-append [] s h = h
strip-append (c ∷ p) s h = ground (arith, strip-append p s h)

tail_of-some : (k s : Text) → tail_of k ≡ some s → k ≡ s
tail_of-some [] s h = cc
tail_of-some (c ∷ k) s h = ground arith

pub strip-some : (p k s : Text) → strip p k ≡ some s → k ≡ p ++ s
unfolding strip
strip-some [] k s h = tail_of-some k s h
strip-some (c ∷ p) [] s h = cc
strip-some (c ∷ p) (d ∷ k) s h = ground (arith, strip-some p k s)

text_eq-append : (p s t : Text) → text_eq (p ++ s) (p ++ t) ≡ text_eq s t
unfolding text_eq
text_eq-append [] s t = refl
text_eq-append (c ∷ p) s t = ground (arith, text_eq-append p s t)

-- A path that is not at or below another is none of the paths there.
apart : (p k q s : Text) → strip p k ≡ none → strip p q ≡ some s → text_eq k q ≡ false
apart p k q s h g = elim (Bool-cases (text_eq k q)) [
  | inl e ↦ absurd (none-ne-some s (sym h ∙ ap (strip p) ((text_eq_iff k q).0 e) ∙ g))
  | inr n ↦ n
]

pub outside :
    (p q k : Text) → strip p q ≡ none → (s : Text) → strip p k ≡ some s → text_eq k q ≡ false
outside p q k h s g = elim (Bool-cases (text_eq k q)) [
  | inl e ↦ absurd (none-ne-some s (sym h ∙ ap (strip p) (sym ((text_eq_iff k q).0 e)) ∙ g))
  | inr n ↦ n
]

tail_of-IsTail : (k s : Text) → tail_of k ≡ some s → IsTail s
tail_of-IsTail k s h = subst (λ t. tail_of t ≡ some s) (tail_of-some k s h) h

pub strip-IsTail : (p k s : Text) → strip p k ≡ some s → IsTail s
unfolding strip
strip-IsTail [] k s h = tail_of-IsTail k s h
strip-IsTail (c ∷ p) [] s h = cc
strip-IsTail (c ∷ p) (d ∷ k) s h = elim (Bool-cases (c == d)) [
  | inl e ↦ strip-IsTail p k s (rw e at h)
  | inr e ↦ absurd (none-ne-some s (rw e at h))
]

module _ {ℓ} {V : Type ℓ} where
  pub remove_all_under :
      (p q s : Text) (es : Dict V) → strip p q ≡ some s → lookup q (remove_all p es) ≡ none
  unfolding remove_all lookup
  remove_all_under p q s [] h = refl
  remove_all_under p q s ((k, e) ∷ rest) h = elim (Option-cases (strip p k)) [
    | inr (t, g) ↦ rw g (remove_all_under p q s rest h)
    | inl g ↦ rw (g, apart p k q s g h) (remove_all_under p q s rest h)
  ]

  pub remove_all_other :
      (p q : Text) (es : Dict V) → strip p q ≡ none → lookup q (remove_all p es) ≡ lookup q es
  unfolding remove_all lookup
  remove_all_other p q [] h = refl
  remove_all_other p q ((k, e) ∷ rest) h = elim (Option-cases (strip p k)) [
    | inr (t, g) ↦ rw (g, outside p q k h t g) (remove_all_other p q rest h)
    | inl g ↦ rw g (ap (λ o. if text_eq k q then some e else o) (remove_all_other p q rest h))
  ]

  -- What stood at or below the one path stands at or below the other.
  pub rename_moved :
      (from to s : Text) (es : Dict V)
      → IsTail s
      → lookup (to ++ s) (rename from to es) ≡ lookup (from ++ s) es
  unfolding rename lookup
  rename_moved from to s [] h = refl
  rename_moved from to s ((k, e) ∷ rest) h = elim (Option-cases (strip from k)) [
    | inr (t, g) ↦
        rw (g, strip-some from k t g, text_eq-append from t s, text_eq-append to t s)
          (ap (λ o. if text_eq t s then some e else o) (rename_moved from to s rest h))
    | inl g ↦ elim (Option-cases (strip to k)) [
      | inr (t, f) ↦
          rw (g, f, apart from k (from ++ s) s g (strip-append from s h))
            (rename_moved from to s rest h)
      | inl f ↦
          rw
            (
              g,
              f,
              apart from k (from ++ s) s g (strip-append from s h),
              apart to k (to ++ s) s f (strip-append to s h),
            )
            (rename_moved from to s rest h)
    ]
  ]

  -- All other paths keep what they have.
  pub rename_other :
      (from to q : Text) (es : Dict V)
      → strip from q ≡ none
      → strip to q ≡ none
      → lookup q (rename from to es) ≡ lookup q es
  unfolding rename lookup
  rename_other from to q [] h g = refl
  rename_other from to q ((k, e) ∷ rest) h g = elim (Option-cases (strip from k)) [
    | inr (t, f) ↦
        rw
          (
            f,
            outside to q (to ++ t) g t (strip-append to t (strip-IsTail from k t f)),
            outside from q k h t f,
          )
          (rename_other from to q rest h g)
    | inl f ↦ elim (Option-cases (strip to k)) [
      | inr (t, e') ↦ rw (f, e', outside to q k g t e') (rename_other from to q rest h g)
      | inl e' ↦
          rw (f, e') (ap (λ o. if text_eq k q then some e else o) (rename_other from to q rest h g))
    ]
  ]

pub strip-prefix : (p k s : Text) → strip (p ++ k) (p ++ s) ≡ strip k s
unfolding strip
strip-prefix [] k s = refl
strip-prefix (c ∷ p) k s = ground (arith, strip-prefix p k s)

pub IsTail-append : (k t : Text) → IsTail k → IsTail t → IsTail (k ++ t)
IsTail-append [] t h g = g
IsTail-append (c ∷ k) t h g = ground arith

pub strip-shorter : (p k q : Text) → IsTail k → strip p q ≡ none → strip (p ++ k) q ≡ none
strip-shorter p k q tail h = elim (Option-cases (strip (p ++ k) q)) [
  | inl n ↦ n
  | inr (t, g) ↦
      let spelled = strip-some (p ++ k) q t g ∙ append_assoc p k t in
      let tail' = IsTail-append k t tail (strip-IsTail (p ++ k) q t g) in
      absurd (none-ne-some (k ++ t) (sym h ∙ ap (strip p) spelled ∙ strip-append p (k ++ t) tail'))
]
