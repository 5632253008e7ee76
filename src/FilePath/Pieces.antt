-- ===== src/FilePath/Pieces.antt =====
-- `Split` and `Join` of path/filepath's elements undo one another.
use ipfs_mobile.Prelude.{ℕ, ◌≡◌, ◌≢◌, refl, Bool, List, [], ◌∷◌, ◌++◌, inl, inr, arith, ap, ◌∙◌}
use ipfs_mobile.Prelude.Tests.{Bool-cases, ◌==◌}
use ipfs_mobile.Prelude.Lists.{All}
use ipfs_mobile.Prelude.Text.{Text}
use ipfs_mobile.FilePath.{split, push_head, join_slash, slash, visit, visit_all, turn}

abbrev pub Lacks : ℕ → Text → Type 0
Lacks b = All (λ c. c ≢ b)

push_head-Lacks :
    (sep c : ℕ) (ps : List Text) → c ≢ sep → All (Lacks sep) ps → All (Lacks sep) (push_head c ps)
push_head-Lacks sep c [] h hs = ((h, tt), tt)
push_head-Lacks sep c (p ∷ ps) h hs = ((h, hs.0), hs.1)

-- No piece holds the separator.
pub split-Lacks : (sep : ℕ) (s : Text) → All (Lacks sep) (split sep s)
unfolding split
split-Lacks sep [] = (tt, tt)
split-Lacks sep (c ∷ s) = ground (arith, split-Lacks sep s, push_head-Lacks sep c (split sep s))

pub split_self : (p : Text) → Lacks slash p → split slash p ≡ p ∷ []
unfolding split
split_self [] h = refl
split_self (c ∷ p) h = ground (arith, split_self p h.1)

split-append : (p s : Text) → Lacks slash p → split slash (p ++ (slash ∷ s)) ≡ p ∷ split slash s
unfolding split
split-append [] s h = ground arith
split-append (c ∷ p) s h = ground (arith, split-append p s h.1)

-- Splitting a join gives the elements back.
pub split-join_slash :
    (p : Text) (ps : List Text)
    → All (Lacks slash) (p ∷ ps)
    → split slash (join_slash (p ∷ ps)) ≡ p ∷ ps
unfolding join_slash
split-join_slash p [] h = split_self p h.0
split-join_slash p (q ∷ ps) h =
    split-append p (join_slash (q ∷ ps)) h.0 ∙ ap (λ ss. p ∷ ss) (split-join_slash q ps h.1)

-- There is always a first piece.
split-cons : (sep : ℕ) (s : Text) → (p : Text) × (ps : List Text) × (split sep s ≡ p ∷ ps)
unfolding split
split-cons sep [] = ([], [], refl)
split-cons sep (c ∷ s) = elim (Bool-cases (c == sep)) [
  | inl h ↦ ([], split sep s, rw h)
  | inr h ↦ let (p, ps, e) = split-cons sep s in (c ∷ p, ps, rw (h, e))
]

-- Splitting a text with a slash in it splits the two sides.
pub split-slash : (s t : Text) → split slash (s ++ (slash ∷ t)) ≡ split slash s ++ split slash t
unfolding split
split-slash [] t = ground arith
split-slash (c ∷ s) t = elim (Bool-cases (c == slash)) [
  | inl h ↦ rw h (ap (λ ss. [] ∷ ss) (split-slash s t))
  | inr h ↦ let (p, ps, e) = split-cons slash s in rw (h, split-slash s t, e) refl
]

pub visit_all-append :
    (r : Bool) (st cs ds : List Text)
    → visit_all r st (cs ++ ds) ≡ visit_all r (visit_all r st cs) ds
unfolding visit_all
visit_all-append r st [] ds = refl
visit_all-append r st (c ∷ cs) ds = visit_all-append r (visit r st c) cs ds

-- `turn` puts what it turns in front.
pub turn-append : (st us vs : List Text) → turn st (us ++ vs) ≡ turn st us ++ vs
unfolding turn
turn-append [] us vs = refl
turn-append (c ∷ st) us vs = turn-append st (c ∷ us) vs

pub turn-turn : (st us vs : List Text) → turn (turn st us) vs ≡ turn us (st ++ vs)
unfolding turn
turn-turn [] us vs = refl
turn-turn (c ∷ st) us vs = turn-turn st (c ∷ us) vs
