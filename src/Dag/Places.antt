-- ===== src/Dag/Places.antt =====
-- client/node.go: names below a directory, and what one creation changes.
use ipfs_mobile.Prelude.{
  ℕ, ◌≡◌, ◌≢◌, refl, false, none, some, [], ◌∷◌, ◌++◌, arith, subst, append-nil,
}
use ipfs_mobile.Prelude.Tests.{if◌then◌else◌}
use ipfs_mobile.Prelude.Text.{Text, text_eq}
use ipfs_mobile.Prelude.Dict.{lookup, lookup-insert}
use ipfs_mobile.FilePath.{slash, join}
use ipfs_mobile.FilePath.Pieces.{Lacks}
use ipfs_mobile.FilePath.Joined.{IsName, IsBelow, IsBelow-nonempty, join-name}
use ipfs_mobile.Storage.{Files, Entry, put}
use ipfs_mobile.Staging.{strip}
use ipfs_mobile.Staging.Subtree.{IsTail}

-- Two different names lead to different places.
pub names_apart :
    (n m t : Text)
    → Lacks slash n
    → Lacks slash m
    → text_eq n m ≡ false
    → IsTail t
    → strip n (m ++ t) ≡ none
unfolding strip text_eq
names_apart [] [] t ln lm d tail = cc
names_apart [] (e ∷ m) t ln (h, hs) d tail = ground arith
names_apart (c ∷ n) [] [] ln lm d tail = refl
names_apart (c ∷ n) [] (e ∷ t) (h, hs) lm d tail = ground arith
names_apart (c ∷ n) (e ∷ m) t (h, hs) (k, ks) d tail = ground (arith, names_apart n m t hs ks)

pub below_apart :
    (n m t : Text)
    → IsName n
    → IsName m
    → text_eq n m ≡ false
    → IsTail t
    → strip (slash ∷ n) (slash ∷ m ++ t) ≡ none
unfolding strip
below_apart n m t hn hm d tail = names_apart n m t ((hn.0).flat) ((hm.0).flat) d tail

-- A name below a directory is again a directory's path.
pub IsBelow-name : (p n : Text) → IsBelow p → IsName n → IsBelow (p ++ (slash ∷ n))
unfolding join
IsBelow-name [] n h hn = absurd (IsBelow-nonempty [] h refl)
IsBelow-name (x ∷ p) [] h hn = absurd ((hn.0).nonempty refl)
IsBelow-name (x ∷ p) (y ∷ n) h hn = record {
  is_clean = join-name (x ∷ p) (y ∷ n) h hn;
  not_root = longer x p;
  not_here = longer x p;
}
  where
    longer : (x : ℕ) (p : Text) → {z : ℕ} → x ∷ (p ++ (slash ∷ y ∷ n)) ≢ z ∷ []
    longer x [] e = cc
    longer x (c ∷ p) e = cc

-- Nothing refuses to be created.
abbrev pub Willing : Files → Type 0
Willing fs = (p : Text) → fs.refuses p ≡ none

-- Nothing stands at or below a path.
abbrev pub Free : Text → Files → Type 0
Free p fs = (t : Text) → IsTail t → lookup (p ++ t) fs.entries ≡ none

pub text_eq-tail : (p t : Text) → text_eq p (p ++ t) ≡ text_eq [] t
unfolding text_eq
text_eq-tail [] t = refl
text_eq-tail (c ∷ p) t = ground (arith, text_eq-tail p t)

pub strip-text_eq : (p q : Text) → strip p q ≡ none → text_eq p q ≡ false
unfolding strip text_eq
strip-text_eq [] [] h = cc
strip-text_eq [] (d ∷ q) h = refl
strip-text_eq (c ∷ p) [] h = refl
strip-text_eq (c ∷ p) (d ∷ q) h = ground (arith, strip-text_eq p q)

-- What one creation changes.
pub put_beside :
    (p q : Text) (e : Entry) (fs : Files)
    → strip p q ≡ none
    → lookup q (put p e fs).entries ≡ lookup q fs.entries
put_beside p q e fs h = rw (lookup-insert, strip-text_eq p q h)

pub put_below :
    (p t : Text) (e : Entry) (fs : Files)
    → lookup (p ++ t) (put p e fs).entries
      ≡ (if text_eq [] t then some e else lookup (p ++ t) fs.entries)
put_below p t e fs = rw (lookup-insert, text_eq-tail p t)

pub Free-self : (p : Text) (fs : Files) → Free p fs → lookup p fs.entries ≡ none
Free-self p fs free = subst (λ q. lookup q fs.entries ≡ none) (append-nil p) (free [] refl)
