-- ===== src/Staging/Sweeping.antt =====
-- client/node.go: what the sweep of stale staging directories spares, and what it does not.
use ipfs_mobile.Prelude.{
  ◌≡◌, refl, true, false, inl, inr, List, [], ◌∷◌, ◌++◌, map, arith, ap, sym, ◌∙◌, subst,
}
use ipfs_mobile.Prelude.Tests.{Bool-cases}
use ipfs_mobile.Prelude.Text.{Text, text_eq, text_eq_iff}
use ipfs_mobile.FilePath.{
  slash, dot, clean, join, has_prefix, split, visit, visit_all, join_slash, turn, render_relative,
}
use ipfs_mobile.FilePath.Pieces.{Lacks, split_self}
use ipfs_mobile.FilePath.Joined.{IsName, IsBelow, join-name, visit-name}
use ipfs_mobile.Peers.{elem}
use ipfs_mobile.Staging.{ends_slash, temp_path, DirEntry, is_fresh, is_swept, sweep}

-- Whether a path is among others, by its text.
elem_differs :
    (p q : Text) (live : List Text) → elem p live ≡ true → elem q live ≡ false → text_eq q p ≡ false
elem_differs p q live h g = elim (Bool-cases (text_eq q p)) [
  | inl e ↦ cc (sym g ∙ ap (λ t. elem t live) ((text_eq_iff q p).0 e) ∙ h)
  | inr n ↦ n
]

is_swept-live :
    (dir prefix : Text) (live : List Text) (e : DirEntry)
    → is_swept dir prefix live e ≡ true
    → elem (join dir e.name) live ≡ false
unfolding is_swept
is_swept-live dir prefix live e h = ground arith

-- The sweep leaves every path that is registered alone.
sweep-live :
    (dir prefix p : Text) (live : List Text) (listing : List DirEntry)
    → elem p live ≡ true
    → elem p (sweep dir prefix live listing) ≡ false
unfolding sweep elem
sweep-live dir prefix p live [] h = refl
sweep-live dir prefix p live (e ∷ rest) h = elim (Bool-cases (is_swept dir prefix live e)) [
  | inr kept ↦ rw kept (sweep-live dir prefix p live rest h)
  | inl swept ↦
      rw (swept, elem_differs p (join dir e.name) live h (is_swept-live dir prefix live e swept))
        (sweep-live dir prefix p live rest h)
]

-- Below a directory in clean form that is neither the root nor the working directory and does not
-- end with a slash, a sweep removes no staging directory that is claimed and not yet released,
-- however old the entries of the directory are.
pub sweep-spares :
    (dir name prefix : Text) (live : List Text) (listing : List DirEntry)
    → IsBelow dir
    → ends_slash dir ≡ false
    → IsName name
    → elem (temp_path dir name) live ≡ true
    → elem (join dir name) (sweep dir prefix live listing) ≡ false
unfolding temp_path
sweep-spares dir name prefix live listing below slashless named held =
    sweep-live dir prefix (join dir name) live listing
      (ap (λ t. elem t live) (join-name dir name below named ∙ sym spelled) ∙ held)
  where
    spelled : temp_path dir name ≡ dir ++ (slash ∷ name)
    spelled = rw slashless

-- Every path that the sweep removes is that of an old directory entry with the prefix.
abbrev pub Stale : Text → DirEntry → Type 0
Stale prefix e = (e.is_dir ≡ true) × (has_prefix e.name prefix ≡ true) × (is_fresh e.age ≡ false)

is_swept-Stale :
    (dir prefix : Text) (live : List Text) (e : DirEntry)
    → is_swept dir prefix live e ≡ true
    → Stale prefix e
unfolding is_swept
is_swept-Stale dir prefix live e h = ground arith

-- The path of a name in the working directory, and the text under which claimScratch registers it.
join-dot : (name : Text) → IsName name → join dot name ≡ name
unfolding join clean split visit visit_all text_eq turn join_slash
join-dot [] named = absurd ((named.0).nonempty refl)
join-dot (c ∷ name) named =
    ap (λ ps. render_relative (turn (visit_all false (visit false [] dot) ps) []))
      (unfold split in (split_self (c ∷ name) (named.0).flat))
    ∙ ap (λ st. render_relative (turn st [])) (visit-name false [] (c ∷ name) named)

apart_text : (name m : Text) → Lacks slash name → text_eq (dot ++ (slash ∷ m)) name ≡ false
apart_text name m flat = elim (Bool-cases (text_eq (dot ++ (slash ∷ m)) name)) [
  | inr n ↦ n
  | inl e ↦
      let held : Lacks slash (dot ++ (slash ∷ m)) =
        subst (Lacks slash) (sym ((text_eq_iff (dot ++ (slash ∷ m)) name).0 e)) flat in
      absurd ((held.1).0 refl)
]

unregistered :
    (name : Text) (names : List Text)
    → Lacks slash name
    → elem name (map (temp_path dot) names) ≡ false
unfolding elem temp_path ends_slash
unregistered name [] flat = refl
unregistered name (m ∷ ms) flat = rw (apart_text name m flat) (unregistered name ms flat)

-- In the working directory, where filepath.Dir of an output is ".", the sweep removes a staging
-- directory whose entry is old even though this process has claimed it, whatever else is claimed
-- there: MkdirTemp's path starts with "./", and the sweep looks the name up without it.
pub sweep_dotted :
    (prefix : Text) (names : List Text) (e : DirEntry) (rest : List DirEntry)
    → IsName e.name
    → Stale prefix e
    → sweep dot prefix (map (temp_path dot) names) (e ∷ rest)
      ≡ e.name ∷ sweep dot prefix (map (temp_path dot) names) rest
unfolding sweep is_swept
sweep_dotted prefix names e rest named (dir, prefixed, old) =
    rw (dir, prefixed, old, join-dot e.name named, unregistered e.name names (named.0).flat)
