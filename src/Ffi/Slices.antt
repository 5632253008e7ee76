-- ===== src/Ffi/Slices.antt =====
-- utils/convert.go: a list that is joined with the delimiter comes back.
use ipfs_mobile.Prelude.{
  ℕ, ◌-◌, ◌≡◌, ◌≢◌, ◌≤◌, refl, true, false, inl, inr, append_assoc, ◌&&◌, List, [], ◌∷◌, ◌++◌,
  arith, ap, sym, ◌∙◌,
}
use ipfs_mobile.Prelude.Tests.{Bool-cases, ◌==◌}
use ipfs_mobile.Prelude.Lists.{All, length, length-append}
use ipfs_mobile.Prelude.Text.{Text}
use ipfs_mobile.FilePath.{has_prefix, push_head}
use ipfs_mobile.Tar.Names.{has_prefix-append}
use ipfs_mobile.Ffi.{
  trim_space, trim_left, trim_right, unless_empty, trimmed_entries, split_from, split_at,
  delimiter_of, get_string_slice,
}

unfoldable pub joined : Text → List Text → Text
joined sep [] = []
joined sep (e ∷ []) = e
joined sep (e ∷ f ∷ es) = e ++ (sep ++ joined sep (f ∷ es))

-- The separator does not begin inside an entry that it follows.
abbrev pub Clear : Text → Text → Type 0
Clear sep [] = Unit
Clear sep (c ∷ e) = (has_prefix ((c ∷ e) ++ sep) sep ≡ false) × Clear sep e

has_prefix-longer : (s t p : Text) → length p ≤ length s → has_prefix (s ++ t) p ≡ has_prefix s p
unfolding has_prefix
has_prefix-longer [] [] [] h = refl
has_prefix-longer [] (c ∷ t) [] h = refl
has_prefix-longer [] t (d ∷ p) h = absurd (omega arith)
has_prefix-longer (c ∷ s) t [] h = refl
has_prefix-longer (c ∷ s) t (d ∷ p) h =
    ap (λ b. (c == d) && b) (has_prefix-longer s t p (omega arith))

has_prefix_kept : (s t p : Text) → has_prefix s p ≡ true → has_prefix (s ++ t) p ≡ true
unfolding has_prefix
has_prefix_kept [] [] p h = h
has_prefix_kept [] (c ∷ t) [] h = refl
has_prefix_kept [] (c ∷ t) (d ∷ p) h = cc
has_prefix_kept (c ∷ s) t [] h = refl
has_prefix_kept (c ∷ s) t (d ∷ p) h = ground (arith, has_prefix_kept s t p)

-- In an entry, whatever follows the separator after it; and in the last one.
clear_before :
    (sep s : Text) (c : ℕ) (e : Text)
    → has_prefix ((c ∷ e) ++ sep) sep ≡ false
    → has_prefix ((c ∷ e) ++ (sep ++ s)) sep ≡ false
clear_before sep s c e h =
    ap (λ t. has_prefix t sep) (sym (append_assoc (c ∷ e) sep s))
    ∙ has_prefix-longer ((c ∷ e) ++ sep) s sep (omega (arith, length-append e sep))
    ∙ h

clear_last :
    (sep : Text) (c : ℕ) (e : Text)
    → has_prefix ((c ∷ e) ++ sep) sep ≡ false
    → has_prefix (c ∷ e) sep ≡ false
clear_last sep c e h = elim (Bool-cases (has_prefix (c ∷ e) sep)) [
  | inr n ↦ n
  | inl y ↦ absurd (cc (sym h ∙ has_prefix_kept (c ∷ e) sep sep y))
]

skip : (sep p s : Text) → split_from sep (length p) (p ++ s) ≡ split_from sep 0 s
unfolding split_from
skip sep [] s = refl
skip sep (c ∷ p) s = skip sep p s

module _ (d : ℕ) (p : Text) where
  abbrev delimiter : Text
  delimiter = d ∷ p

  split_from-sep :
      (e s : Text)
      → Clear delimiter e
      → split_from delimiter 0 (e ++ (delimiter ++ s)) ≡ e ∷ split_from delimiter 0 s
  unfolding split_from
  split_from-sep [] s h =
      let one : length delimiter - 1 ≡ length p = omega arith in
      rw (has_prefix-append delimiter s, one) (ap (λ ss. [] ∷ ss) (skip delimiter p s))
  split_from-sep (c ∷ e) s (h, hs) =
      rw (clear_before delimiter s c e h) (ap (push_head c) (split_from-sep e s hs))

  split_from_whole : (e : Text) → Clear delimiter e → split_from delimiter 0 e ≡ e ∷ []
  unfolding split_from
  split_from_whole [] h = refl
  split_from_whole (c ∷ e) (h, hs) =
      rw (clear_last delimiter c e h) (ap (push_head c) (split_from_whole e hs))

-- An entry as the caller wrote it: not empty, without space at its ends, and, with the delimiter
-- behind it, without one that begins inside.
pub record IsEntry (sep : Text) (e : Text) : Type 0 where
  pub nonempty : e ≢ []
  pub clear : Clear sep e
  pub trimmed : trim_space e ≡ e

entry_kept : (e : Text) (rest : List Text) → e ≢ [] → unless_empty e rest ≡ e ∷ rest
entry_kept [] rest h = absurd (h refl)
entry_kept (c ∷ e) rest h = refl

kept :
    (sep e : Text) (rest : List Text)
    → IsEntry sep e
    → trimmed_entries (e ∷ rest) ≡ e ∷ trimmed_entries rest
unfolding trimmed_entries
kept sep e rest h =
    ap (λ t. unless_empty t (trimmed_entries rest)) h.trimmed
    ∙ entry_kept e (trimmed_entries rest) h.nonempty

-- No entry goes with an empty delimiter.
entry_delimited : (e : Text) → IsEntry [] e → ⊥
unfolding has_prefix
entry_delimited [] h = h.nonempty refl
entry_delimited (c ∷ e) h = cc ((h.clear).0)

joined-slices :
    (sep : Text) (es : List Text)
    → All (IsEntry sep) es
    → trimmed_entries (split_at sep (joined sep es)) ≡ es
unfolding joined split_at
joined-slices [] [] h = unfold trimmed_entries in refl
joined-slices (d ∷ p) [] h =
    unfold trimmed_entries split_from trim_space trim_left trim_right in refl
joined-slices [] (e ∷ es) (h, hs) = absurd (entry_delimited e h)
joined-slices (d ∷ p) (e ∷ []) (h, hs) =
    ap trimmed_entries (split_from_whole d p e h.clear)
    ∙ kept (d ∷ p) e [] h
    ∙ ap (◌∷◌ e) (unfold trimmed_entries in refl)
joined-slices (d ∷ p) (e ∷ f ∷ es) (h, hs) =
    ap trimmed_entries (split_from-sep d p e (joined (d ∷ p) (f ∷ es)) h.clear)
    ∙ kept (d ∷ p) e _ h
    ∙ ap (◌∷◌ e) (joined-slices (d ∷ p) (f ∷ es) hs)

-- GetStringSlice gives back every list of entries that is joined with the delimiter of its first
-- further argument, or a semicolon where it has none, where no entry is empty, or begins or ends
-- with a space, or has the delimiter begin inside it, when the delimiter follows the entry.
pub get_string_slice-joined :
    (args : List Text) (es : List Text)
    → All (IsEntry (delimiter_of args)) es
    → get_string_slice (joined (delimiter_of args) es) args ≡ es
unfolding get_string_slice
get_string_slice-joined args es h = joined-slices (delimiter_of args) es h
