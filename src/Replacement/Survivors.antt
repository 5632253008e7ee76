-- ===== src/Replacement/Survivors.antt =====
-- client/output.go and client/node.go: what a removal of a subtree that fails at some of its entries
-- leaves at every path.
use ipfs_mobile.Prelude.{
  ◌≡◌, refl, Bool, true, false, inl, inr, Option, none, some, [], ◌∷◌, ap, sym, ◌∙◌, none-ne-some,
}
use ipfs_mobile.Prelude.Tests.{if◌then◌else◌, Bool-cases}
use ipfs_mobile.Prelude.Text.{Text, text_eq, text_eq_iff}
use ipfs_mobile.Prelude.Dict.{Dict, lookup}
use ipfs_mobile.Storage.{Entry}
use ipfs_mobile.Staging.{kept_unless, strip}
use ipfs_mobile.Staging.Subtree.{outside}
use ipfs_mobile.Replacement.{surviving, remove_some}

module _ (survives : Text → Bool) (p q : Text) where
  pub remove_some_other :
      (es : Dict Entry) → strip p q ≡ none → lookup q (remove_some survives p es) ≡ lookup q es
  unfolding remove_some lookup
  remove_some_other [] h = refl
  remove_some_other ((k, e) ∷ rest) h = go (strip p k) (survives k) refl (remove_some_other rest h)
    where
      go :
          (o : Option Text) (b : Bool)
          → strip p k ≡ o
          → lookup q (remove_some survives p rest) ≡ lookup q rest
          → lookup q (kept_unless (surviving b o) (k, e) (remove_some survives p rest))
            ≡ lookup q ((k, e) ∷ rest)
      go (some t) false g ih = rw (outside p q k h t g) ih
      go (some t) true g ih = ap (λ o. if text_eq k q then some e else o) ih
      go none true g ih = ap (λ o. if text_eq k q then some e else o) ih
      go none false g ih = ap (λ o. if text_eq k q then some e else o) ih

  -- Where nothing was, nothing is.
  pub remove_some_absent :
      (es : Dict Entry) → lookup q es ≡ none → lookup q (remove_some survives p es) ≡ none
  unfolding remove_some lookup
  remove_some_absent [] h = refl
  remove_some_absent ((k, e) ∷ rest) h = elim (Bool-cases (text_eq k q)) [
    | inl b ↦ absurd (none-ne-some e (sym (rw b at h)))
    | inr b ↦ go (surviving (survives k) (strip p k)) b (remove_some_absent rest (rw b at h))
  ]
    where
      go :
          (o : Option Text)
          → text_eq k q ≡ false
          → lookup q (remove_some survives p rest) ≡ none
          → lookup q (kept_unless o (k, e) (remove_some survives p rest)) ≡ none
      go (some t) b ih = ih
      go none b ih = rw b ih

  -- An entry of the subtree at which the removal does not fail is gone.
  pub remove_some_under :
      (s : Text) (es : Dict Entry)
      → survives q ≡ false
      → strip p q ≡ some s
      → lookup q (remove_some survives p es) ≡ none
  unfolding remove_some lookup
  remove_some_under s [] d h = refl
  remove_some_under s ((k, e) ∷ rest) d h = elim (Bool-cases (text_eq k q)) [
    | inl b ↦
        let same = (text_eq_iff k q).0 b in
        rw (ap survives same ∙ d, ap (strip p) same ∙ h) (remove_some_under s rest d h)
    | inr b ↦ go (surviving (survives k) (strip p k)) b (remove_some_under s rest d h)
  ]
    where
      go :
          (o : Option Text)
          → text_eq k q ≡ false
          → lookup q (remove_some survives p rest) ≡ none
          → lookup q (kept_unless o (k, e) (remove_some survives p rest)) ≡ none
      go (some t) b ih = ih
      go none b ih = rw b ih
