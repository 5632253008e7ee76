-- ===== src/FilePath/Joined.antt =====
-- Joining a clean directory and a clean rooted path stays below the directory.
use ipfs_mobile.Prelude.{
  ◌≡◌, ◌≢◌, refl, Bool, true, false, List, [], ◌∷◌, ◌++◌, ap, ap₂, sym, ◌∙◌, inl, inr,
}
use mathlib.Core.List.{append-nil, append_assoc}
use ipfs_mobile.Prelude.Tests.{Bool-cases}
use ipfs_mobile.Prelude.Lists.{All, All-map}
use ipfs_mobile.Prelude.Text.{Text, text_eq, text_eq_iff}
use ipfs_mobile.FilePath.{
  split, join_slash, slash, dot, dot_dot, visit, visit_all, turn, render, render_relative,
  is_rooted, elements, clean, join,
}
use ipfs_mobile.FilePath.Pieces.{split_self, split-slash, visit_all-append, turn-turn, turn-append}
use ipfs_mobile.FilePath.Cleaned.{
  IsElement, IsCanonical, elements-IsCanonical, in_order, split-elements,
}

-- An element that goes down one level.
abbrev pub IsName : Text → Type 0
IsName c = IsElement c × (c ≢ dot_dot)

pub join_slash-append :
    (d : Text) (ds : List Text) (c : Text) (cs : List Text)
    → join_slash ((d ∷ ds) ++ c ∷ cs) ≡ join_slash (d ∷ ds) ++ (slash ∷ join_slash (c ∷ cs))
unfolding join_slash
join_slash-append d [] c cs = refl
join_slash-append d (e ∷ ds) c cs = rw (join_slash-append e ds c cs) (sym (append_assoc d _ _))

-- Names are put on any stack.
pub visit-name : (r : Bool) (st : List Text) (c : Text) → IsName c → visit r st c ≡ c ∷ st
unfolding visit
visit-name r st c (el, up) =
    rw (eq_false [] el.nonempty, eq_false dot el.not_dot, eq_false dot_dot up) refl
  where
    eq_false : (t : Text) → c ≢ t → text_eq c t ≡ false
    eq_false t h = elim (Bool-cases (text_eq c t)) [
      | inl e ↦ absurd (h ((text_eq_iff c t).0 e))
      | inr n ↦ n
    ]

pub visit_all-names :
    (r : Bool) (st cs : List Text) → All IsName cs → visit_all r st cs ≡ turn cs st
unfolding visit_all turn
visit_all-names r st [] h = refl
visit_all-names r st (c ∷ cs) h =
    ap (λ st'. visit_all r st' cs) (visit-name r st c h.0) ∙ visit_all-names r (c ∷ st) cs h.1

-- On a rooted path every element is a name.
names_turn : (st us : List Text) → IsCanonical true st → All IsName us → All IsName (turn st us)
unfolding turn
names_turn [] us h hs = hs
names_turn (c ∷ st) us (el, inl up, h) hs = names_turn st (c ∷ us) h ((el, up), hs)
names_turn (c ∷ st) us (el, inr k, h) hs = cc (k.0)

-- What `Clean` makes of a rooted path, as names.
pub clean-rooted :
    (s : Text)
    → (cs : List Text) × All IsName cs
      × (clean (slash ∷ s) ≡ slash ∷ join_slash cs)
      × (turn cs [] ≡ elements (slash ∷ s))
unfolding clean
clean-rooted s =
    let st = elements (slash ∷ s) in
    let canonical = elements-IsCanonical (slash ∷ s) in
    (
      turn st [],
      names_turn st [] canonical tt,
      refl,
      (in_order true st (turn st []) refl canonical).1,
    )

pub is_rooted-append : (d : Text) (s : Text) → d ≢ [] → is_rooted (d ++ (slash ∷ s)) ≡ is_rooted d
is_rooted-append [] s h = absurd (h refl)
is_rooted-append (x ∷ d) s h = refl

elements-under :
    (dir : Text) (c : Text) (cs : List Text)
    → dir ≢ []
    → All IsName (c ∷ cs)
    → elements (dir ++ (slash ∷ slash ∷ join_slash (c ∷ cs))) ≡ turn (c ∷ cs) (elements dir)
elements-under dir c cs h names =
    rw
      (
        is_rooted-append dir (slash ∷ join_slash (c ∷ cs)) h,
        split-slash dir (slash ∷ join_slash (c ∷ cs)),
        visit_all-append (is_rooted dir) [] (split slash dir)
            (split slash (slash ∷ join_slash (c ∷ cs))),
      )
      (unfold split visit_all visit text_eq in
        (rw (split-elements c cs (All-map (c ∷ cs) (λ d n. n.0) names))
          (visit_all-names (is_rooted dir) (elements dir) (c ∷ cs) names)))

-- The path that the elements of a directory and further names spell.
render-under :
    (r : Bool) (dir : Text) (st ds : List Text) (c : Text) (cs : List Text)
    → turn st [] ≡ ds
    → render r st ≡ dir
    → dir ≢ slash ∷ []
    → dir ≢ dot
    → render r (turn (c ∷ cs) st) ≡ dir ++ (slash ∷ join_slash (c ∷ cs))
render-under r dir st ds c cs e spelled root here = spell r ds e spelled
  where
    order : (ds : List Text) → turn st [] ≡ ds → turn (turn (c ∷ cs) st) [] ≡ ds ++ c ∷ cs
    order ds e =
        turn-turn (c ∷ cs) st []
        ∙ ap (turn st) (append-nil (c ∷ cs))
        ∙ turn-append st [] (c ∷ cs)
        ∙ ap (λ t. t ++ c ∷ cs) e

    spell :
        (r : Bool) (ds : List Text)
        → turn st [] ≡ ds
        → render r st ≡ dir
        → render r (turn (c ∷ cs) st) ≡ dir ++ (slash ∷ join_slash (c ∷ cs))
    spell true [] e sp = absurd (root (sym sp ∙ ap (λ t. slash ∷ join_slash t) e ∙ nothing))
      where
        nothing : (slash ∷ join_slash []) ≡ slash ∷ []
        nothing = unfold join_slash in refl
    spell false [] e sp = absurd (here (sym sp ∙ ap render_relative e))
    spell true (d ∷ ds) e sp =
        ap (λ t. slash ∷ join_slash t) (order (d ∷ ds) e)
        ∙ ap (λ t. slash ∷ t) (join_slash-append d ds c cs)
        ∙ ap (λ t. t ++ (slash ∷ join_slash (c ∷ cs))) (ap (λ t. slash ∷ join_slash t) (sym e) ∙ sp)
    spell false (d ∷ ds) e sp =
        ap render_relative (order (d ∷ ds) e)
        ∙ join_slash-append d ds c cs
        ∙ ap (λ t. t ++ (slash ∷ join_slash (c ∷ cs))) (ap render_relative (sym e) ∙ sp)

-- A directory in clean form that is neither the root nor the working directory.
pub record IsBelow (dir : Text) : Type 0 where
  pub is_clean : clean dir ≡ dir
  pub not_root : dir ≢ slash ∷ []
  pub not_here : dir ≢ dot

pub IsBelow-nonempty : (dir : Text) → IsBelow dir → dir ≢ []
unfolding clean
IsBelow-nonempty dir h e = h.not_here (sym h.is_clean ∙ ap clean e ∙ refl ∙ here)
  where
    here : clean [] ≡ dot
    here = unfold split visit_all visit text_eq turn in refl

-- Joining a clean directory and names written as a rooted path appends them.
pub join-names :
    (dir : Text) (c : Text) (cs : List Text)
    → IsBelow dir
    → All IsName (c ∷ cs)
    → join dir (slash ∷ join_slash (c ∷ cs)) ≡ dir ++ (slash ∷ join_slash (c ∷ cs))
unfolding join
join-names [] c cs h names = absurd (IsBelow-nonempty [] h refl)
join-names (x ∷ d) c cs h names =
    let dir : Text = x ∷ d in
    ap₂ render (is_rooted-append dir (slash ∷ join_slash (c ∷ cs)) (λ e. cc))
      (elements-under dir c cs (λ e. cc) names)
    ∙ render-under (is_rooted dir) dir (elements dir) (turn (elements dir) []) c cs refl
        (unfold clean in h.is_clean) h.not_root h.not_here

element-under :
    (dir : Text) (c : Text)
    → dir ≢ []
    → IsName c
    → elements (dir ++ (slash ∷ c)) ≡ turn (c ∷ []) (elements dir)
unfolding turn
element-under dir c h name =
    rw
      (
        is_rooted-append dir c h,
        split-slash dir c,
        visit_all-append (is_rooted dir) [] (split slash dir) (split slash c),
      )
      (unfold split visit_all visit text_eq in
        (rw (split_self c (name.0).flat) (visit-name (is_rooted dir) (elements dir) c name)))

-- Joining a clean directory and a name appends the name.
pub join-name : (dir c : Text) → IsBelow dir → IsName c → join dir c ≡ dir ++ (slash ∷ c)
unfolding join join_slash
join-name [] c h name = absurd (IsBelow-nonempty [] h refl)
join-name (x ∷ d) [] h name = absurd ((name.0).nonempty refl)
join-name (x ∷ d) (y ∷ c) h name =
    let dir : Text = x ∷ d in
    ap₂ render (is_rooted-append dir (y ∷ c) (λ e. cc)) (element-under dir (y ∷ c) (λ e. cc) name)
    ∙ render-under (is_rooted dir) dir (elements dir) (turn (elements dir) []) (y ∷ c) [] refl
        (unfold clean in h.is_clean) h.not_root h.not_here
