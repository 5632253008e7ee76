-- ===== src/FilePath/Cleaned.antt =====
-- What path/filepath's Clean leaves, and that it changes nothing when called again.
use ipfs_mobile.Prelude.{
  ℕ, ◌≡◌, ◌≢◌, ◌⊎◌, refl, Bool, true, false, List, [], ◌∷◌, arith, ap, ap₂, subst, sym, ◌∙◌, inl,
  inr,
}
use mathlib.Core.List.{append-nil}
use ipfs_mobile.Prelude.Tests.{Bool-cases, ◌==◌, if◌then◌else◌}
use ipfs_mobile.Prelude.Lists.{All, All-map}
use ipfs_mobile.Prelude.Text.{Text, text_eq, text_eq_iff}
use ipfs_mobile.FilePath.{
  split, join_slash, slash, dot, dot_dot, visit, visit_all, turn, back, render, render_relative,
  is_rooted, elements, clean,
}
use ipfs_mobile.FilePath.Pieces.{Lacks, split-Lacks, split-join_slash, turn-turn}

-- An element that is a name: not empty, not "." and with no slash. It may be "..".
pub record IsElement (c : Text) : Type 0 where
  pub nonempty : c ≢ []
  pub not_dot : c ≢ dot
  pub flat : Lacks slash c

-- The elements of a clean path, the last one first: ".." stands only at the start of a path that is
-- not rooted.
abbrev pub IsCanonical : Bool → List Text → Type 0
IsCanonical r [] = Unit {0}
IsCanonical r (c ∷ st) =
    IsElement c × ((c ≢ dot_dot) ⊎ ((r ≡ false) × All (λ d. d ≡ dot_dot) st)) × IsCanonical r st

dot_dot-IsElement : IsElement dot_dot
dot_dot-IsElement = record { nonempty = λ h. cc; not_dot = λ h. cc; flat = omega arith }

-- Below ".." there is nothing but "..", on a path that is not rooted.
below_dot_dot :
    (r : Bool) (c : Text) (st : List Text)
    → c ≡ dot_dot
    → IsCanonical r (c ∷ st)
    → (r ≡ false) × All (λ d. d ≡ dot_dot) st
below_dot_dot r c st e (el, inl no', h) = absurd (no' e)
below_dot_dot r c st e (el, inr all, h) = all

back_some-IsCanonical :
    (r : Bool) (c : Text) (st : List Text)
    → IsCanonical r (c ∷ st)
    → IsCanonical r (if text_eq c dot_dot then dot_dot ∷ c ∷ st else st)
back_some-IsCanonical r c st h = elim (Bool-cases (text_eq c dot_dot)) [
  | inl e ↦
      let eq = (text_eq_iff c dot_dot).0 e in
      let (rel, below) = below_dot_dot r c st eq h in
      rw e (dot_dot-IsElement, inr (rel, (eq, below)), h)
  | inr n ↦ rw n (h.2)
]

back-IsCanonical : (r : Bool) (st : List Text) → IsCanonical r st → IsCanonical r (back r st)
back-IsCanonical true [] h = tt
back-IsCanonical false [] h = (dot_dot-IsElement, inr (refl, tt), tt)
back-IsCanonical true (c ∷ st) h = back_some-IsCanonical true c st h
back-IsCanonical false (c ∷ st) h = back_some-IsCanonical false c st h

visit-IsCanonical :
    (r : Bool) (st : List Text) (c : Text)
    → Lacks slash c
    → IsCanonical r st
    → IsCanonical r (visit r st c)
unfolding visit
visit-IsCanonical r st c l h = elim (Bool-cases (text_eq c [])) [
  | inl e ↦ rw e h
  | inr n ↦ elim (Bool-cases (text_eq c dot)) [
    | inl e ↦ rw (n, e) h
    | inr d ↦ elim (Bool-cases (text_eq c dot_dot)) [
      | inl e ↦ rw (n, d, e) (back-IsCanonical r st h)
      | inr u ↦
          rw (n, d, u)
            (record { nonempty = ne [] n; not_dot = ne dot d; flat = l }, inl (ne dot_dot u), h)
    ]
  ]
]
  where
    ne : (t : Text) → text_eq c t ≡ false → c ≢ t
    ne t h e = cc ((text_eq_iff c t).1 e)

visit_all-IsCanonical :
    (r : Bool) (st cs : List Text)
    → All (Lacks slash) cs
    → IsCanonical r st
    → IsCanonical r (visit_all r st cs)
unfolding visit_all
visit_all-IsCanonical r st [] l h = h
visit_all-IsCanonical r st (c ∷ cs) l h =
    visit_all-IsCanonical r (visit r st c) cs l.1 (visit-IsCanonical r st c l.0 h)

-- The elements that `Clean` finds are canonical.
pub elements-IsCanonical : (p : Text) → IsCanonical (is_rooted p) (elements p)
elements-IsCanonical p =
    visit_all-IsCanonical (is_rooted p) [] (split slash p) (split-Lacks slash p) tt

-- An element that may stand on a canonical stack is put on it.
visit-canonical :
    (r : Bool) (st : List Text) (c : Text) → IsCanonical r (c ∷ st) → visit r st c ≡ c ∷ st
unfolding visit
visit-canonical r st c h =
    rw (eq_false [] (h.0).nonempty, eq_false dot (h.0).not_dot)
      (elim (Bool-cases (text_eq c dot_dot)) [
        | inl e ↦
            let eq = (text_eq_iff c dot_dot).0 e in
            let (rel, below) = below_dot_dot r c st eq h in
            rw e (back_all r st rel below ∙ ap (λ d. d ∷ st) (sym eq))
        | inr u ↦ rw u
      ])
  where
    eq_false : (t : Text) → c ≢ t → text_eq c t ≡ false
    eq_false t h = elim (Bool-cases (text_eq c t)) [
      | inl e ↦ absurd (h ((text_eq_iff c t).0 e))
      | inr n ↦ n
    ]

    back_all :
        (r : Bool) (st : List Text)
        → r ≡ false
        → All (λ d. d ≡ dot_dot) st
        → back r st ≡ dot_dot ∷ st
    back_all true st rel below = cc
    back_all false [] rel below = refl
    back_all false (d ∷ st) rel below = rw ((text_eq_iff d dot_dot).1 below.0) refl

-- So visiting canonical elements in their order, the first one first, stacks them.
visit_all-canonical :
    (r : Bool) (st us : List Text)
    → IsCanonical r st
    → visit_all r [] (turn st us) ≡ visit_all r st us
unfolding visit_all turn
visit_all-canonical r [] us h = refl
visit_all-canonical r (c ∷ st) us h =
    visit_all-canonical r st (c ∷ us) h.2
    ∙ ap (λ st'. visit_all r st' us) (visit-canonical r st c h)

IsElement-turn :
    (r : Bool) (st us : List Text)
    → IsCanonical r st
    → All IsElement us
    → All IsElement (turn st us)
unfolding turn
IsElement-turn r [] us h hs = hs
IsElement-turn r (c ∷ st) us h hs = IsElement-turn r st (c ∷ us) h.2 (h.0, hs)

-- The elements of a canonical path in their order, and back.
pub in_order :
    (r : Bool) (st cs : List Text)
    → turn st [] ≡ cs
    → IsCanonical r st
    → All IsElement cs × (turn cs [] ≡ st) × (visit_all r [] cs ≡ st)
unfolding turn
in_order r st cs e h = (
  subst (All IsElement) e (IsElement-turn r st [] h tt),
  ap (λ us. turn us []) (sym e) ∙ turn-turn st [] [] ∙ append-nil st,
  ap (visit_all r []) (sym e) ∙ visit_all-canonical r st [] h ∙ visit_nil r st,
)
  where
    visit_nil : (r : Bool) (st : List Text) → visit_all r st [] ≡ st
    visit_nil r st = unfold visit_all in refl

pub split-elements :
    (c : Text) (cs : List Text)
    → All IsElement (c ∷ cs)
    → split slash (join_slash (c ∷ cs)) ≡ c ∷ cs
split-elements c cs h = split-join_slash c cs (All-map (c ∷ cs) (λ d el. el.flat) h)

not_slash : (x : ℕ) → x ≢ slash → (x == slash) ≡ false
not_slash x h = ground arith

pub is_rooted-element :
    (c : Text) (cs : List Text) → IsElement c → is_rooted (join_slash (c ∷ cs)) ≡ false
unfolding join_slash
is_rooted-element [] cs h = absurd (h.nonempty refl)
is_rooted-element (x ∷ c) [] h = not_slash x (h.flat.0)
is_rooted-element (x ∷ c) (d ∷ cs) h = not_slash x (h.flat.0)

elements_relative :
    (st : List Text) (cs : List Text)
    → turn st [] ≡ cs
    → IsCanonical false st
    → (is_rooted (render_relative cs) ≡ false) × (elements (render_relative cs) ≡ st)
unfolding split visit_all visit text_eq turn
elements_relative st [] e h = (refl, (in_order false st [] e h).1)
elements_relative st (c ∷ cs) e h =
    let (els, b, visited) = in_order false st (c ∷ cs) e h in
    let rel = is_rooted-element c cs els.0 in (rel, rw (rel, split-elements c cs els) visited)

elements_rooted :
    (st : List Text) (cs : List Text)
    → turn st [] ≡ cs
    → IsCanonical true st
    → elements (slash ∷ join_slash cs) ≡ st
unfolding split visit_all visit text_eq turn join_slash
elements_rooted st [] e h = (in_order true st [] e h).1
elements_rooted st (c ∷ cs) e h =
    let (els, b, visited) = in_order true st (c ∷ cs) e h in rw (split-elements c cs els) visited

pub elements-render :
    (r : Bool) (st : List Text)
    → IsCanonical r st
    → (is_rooted (render r st) ≡ r) × (elements (render r st) ≡ st)
elements-render true st h = (refl, elements_rooted st (turn st []) refl h)
elements-render false st h = elements_relative st (turn st []) refl h

-- filepath.Clean is idempotent, so a path and its clean form share the key of pathLocks.
pub clean-clean : (p : Text) → clean (clean p) ≡ clean p
unfolding clean
clean-clean p =
    let (r, e) = elements-render (is_rooted p) (elements p) (elements-IsCanonical p) in
    ap₂ render r e
