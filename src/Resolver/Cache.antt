-- ===== src/Resolver/Cache.antt =====
-- client/resolver.go: the bound on the cache of TXT answers, what it returns, and whom it evicts.
use ipfs_mobile.Prelude.{ℕ, ◌+◌, ◌≡◌, ◌≤◌, ◌<◌, refl, false, inl, inr, some, List, [], ◌∷◌, arith}
use ipfs_mobile.Prelude.Tests.{ltb, leb, Bool-cases}
use ipfs_mobile.Prelude.Lists.{length}
use ipfs_mobile.Prelude.Text.{Text, text_eq, text_eq_refl}
use ipfs_mobile.Prelude.Dict.{lookup, lookup-insert, length-insert-le}
use ipfs_mobile.Resolver.{
  TxtCache, txt_answer_limit, txt_answer_lifetime, still_held, cache_lookup, evict, keep,
}

length-evict : (now : ℕ) (cache : TxtCache) → length (evict now cache) ≤ length cache
unfolding evict
length-evict now [] = omega arith
length-evict now ((name, a) ∷ rest) = ground (arith, length-evict now rest)

-- keep leaves at most txtAnswerLimit TXT answers in the cache where there were no more before.
pub keep-le :
    (cache : TxtCache) (now : ℕ) (name : Text) (records : List Text)
    → length cache ≤ txt_answer_limit
    → length (keep cache now name records) ≤ txt_answer_limit
unfolding keep
keep-le cache now name records small = ground (
  arith,
  length-evict now cache,
  length-insert-le name (record { records = records; until = now + txt_answer_lifetime }) cache,
  length-insert-le name (record { records = records; until = now + txt_answer_lifetime })
      (evict now cache),
)

lookup-evict :
    (now : ℕ) (other : Text) (cache : TxtCache) (held : List Text)
    → still_held now (lookup other cache) ≡ some held
    → lookup other (evict now cache) ≡ lookup other cache
unfolding evict lookup
lookup-evict now other [] held alive = refl
lookup-evict now other ((name, a) ∷ rest) held alive =
    ground (arith, lookup-evict now other rest held)

-- Where an answer in the cache has not expired, keep for another name leaves the lookup of it as
-- it is, whether the cache is full or not.
pub keep_other :
    (cache : TxtCache) (now : ℕ) (name other : Text) (records held : List Text)
    → text_eq name other ≡ false
    → cache_lookup cache now other ≡ some held
    → cache_lookup (keep cache now name records) now other ≡ some held
unfolding keep cache_lookup
keep_other cache now name other records held differ alive =
    elim (Bool-cases (leb txt_answer_limit (length cache))) [
      | inr room ↦ rw (room, lookup-insert, differ) alive
      | inl full ↦ elim (Bool-cases (leb txt_answer_limit (length (evict now cache)))) [
        | inl still ↦ rw (full, still, lookup-evict now other cache held alive) alive
        | inr room ↦
            rw (full, room, lookup-insert, differ, lookup-evict now other cache held alive) alive
      ]
    ]

-- Where the cache has room, a lookup within the lifetime finds the answer that was kept last.
pub keep_found :
    (cache : TxtCache) (now later : ℕ) (name : Text) (records : List Text)
    → length cache < txt_answer_limit
    → later ≤ now + txt_answer_lifetime
    → cache_lookup (keep cache now name records) later name ≡ some records
unfolding keep cache_lookup
keep_found cache now later name records room soon = rw (roomy, lookup-insert, text_eq_refl, young)
  where
    roomy : leb txt_answer_limit (length cache) ≡ false
    roomy = ground arith

    young : ltb (now + txt_answer_lifetime) later ≡ false
    young = ground arith
