-- ===== src/Snapshots/RoundTrip.antt =====
-- client/snapshot.go and client/node.go: a snapshot that is written and read back.
use ipfs_mobile.Prelude.{
  ◌≡◌, ◌≢◌, refl, false, none, some, List, [], ◌∷◌, ◌++◌, arith, ap, ap₂, sym, ◌∙◌, append_assoc,
  append-nil, subst,
}
use ipfs_mobile.Prelude.Lists.{All, All-map, All-map₂}
use ipfs_mobile.Prelude.Int.{ℤ, ltb_ℤ}
use ipfs_mobile.Prelude.Text.{Text, text_eq, text_eq_iff, text_eq_refl}
use ipfs_mobile.Prelude.Dict.{Dict, lookup, lookup-insert}
use ipfs_mobile.Errors.{ok}
use ipfs_mobile.Peers.{AddrInfo, configured_ids, snapshot_text}
use ipfs_mobile.Setup.{
  Libraries, Parsing, seen_with, add_peer, parse_all, addrs_of, in_order, parse_peers,
}
use ipfs_mobile.Setup.Addresses.{given, collected, parse_all-collected}
use ipfs_mobile.Snapshots.{snapshot_lifetime, read_peer_snapshot}
use ipfs_mobile.Snapshots.Words.{named, peer_words, words, IsWord, fields-snapshot_text}

parse_all-append :
    (l : Libraries) (s : Parsing) (xs ys : List Text)
    → parse_all l s (xs ++ ys) ≡ parse_all l (parse_all l s xs) ys
unfolding parse_all
parse_all-append l s [] ys = refl
parse_all-append l s (x ∷ xs) ys = parse_all-append l (add_peer s (l.p2p_addr x)) xs ys

collected-append :
    (l : Libraries) (id : Text) (xs ys : List Text)
    → collected l id (xs ++ ys) ≡ collected l id xs ++ collected l id ys
unfolding collected
collected-append l id [] ys = refl
collected-append l id (x ∷ xs) ys =
    ap (◌++◌ (given id (l.p2p_addr x))) (collected-append l id xs ys)
    ∙ sym (append_assoc (given id (l.p2p_addr x)) (collected l id xs) (collected l id ys))

-- The library reads the text of an address with a peer's ID as that peer at that address.
abbrev pub ReadsBack : Libraries → Text → Text → Type 0
ReadsBack l id addr = l.p2p_addr (named addr id) ≡ ok (record { id = id; addrs = addr ∷ [] })

-- What the words of a peer leave of the lookups and of the order.
module _ (l : Libraries) (id : Text) where
  abbrev Same : Parsing → Parsing → Type 0
  Same s s' = (j : Text) → text_eq id j ≡ false → lookup j s'.infos ≡ lookup j s.infos

  seen_words :
      (s : Parsing) (addrs have : List Text)
      → All (ReadsBack l id) addrs
      → lookup id s.infos ≡ some have
      → let s' = parse_all l s (peer_words id addrs) in (s'.order ≡ s.order) × Same s s'
  unfolding parse_all
  seen_words s [] have r h = (refl, λ j d. refl)
  seen_words s (addr ∷ rest) have (r, rs) h =
      let next : Parsing = seen_with s (record { id = id; addrs = addr ∷ [] }) (some have) in
      let added : add_peer s (l.p2p_addr (named addr id)) ≡ next =
        ap (add_peer s) r ∙ ap (seen_with s (record { id = id; addrs = addr ∷ [] })) h in
      let (same_order, same) =
        seen_words next rest (have ++ addr ∷ []) rs (rw (lookup-insert, text_eq_refl id)) in
      subst
        (λ u.
          ((parse_all l u (peer_words id rest)).order ≡ s.order)
          × Same s (parse_all l u (peer_words id rest)))
        (sym added) (same_order, λ j d. same j d ∙ rw (lookup-insert, d))

  new_words :
      (s : Parsing) (addrs : List Text)
      → addrs ≢ []
      → All (ReadsBack l id) addrs
      → lookup id s.infos ≡ none
      → let s' = parse_all l s (peer_words id addrs) in (s'.order ≡ s.order ++ id ∷ []) × Same s s'
  unfolding parse_all
  new_words s [] some_addrs r h = absurd (some_addrs refl)
  new_words s (addr ∷ rest) some_addrs (r, rs) h =
      let next : Parsing = seen_with s (record { id = id; addrs = addr ∷ [] }) none in
      let added : add_peer s (l.p2p_addr (named addr id)) ≡ next =
        ap (add_peer s) r ∙ ap (seen_with s (record { id = id; addrs = addr ∷ [] })) h in
      let (same_order, same) =
        seen_words next rest (addr ∷ []) rs (rw (lookup-insert, text_eq_refl id)) in
      subst
        (λ u.
          ((parse_all l u (peer_words id rest)).order ≡ s.order ++ id ∷ [])
          × Same s (parse_all l u (peer_words id rest)))
        (sym added) (same_order, λ j d. same j d ∙ rw (lookup-insert, d))

  collected_own :
      (addrs : List Text)
      → All (ReadsBack l id) addrs
      → collected l id (peer_words id addrs) ≡ addrs
  unfolding collected
  collected_own [] r = refl
  collected_own (addr ∷ rest) (r, rs) =
      rw (r, text_eq_refl id) (ap (◌∷◌ addr) (collected_own rest rs))

  collected_other :
      (j : Text) (addrs : List Text)
      → text_eq id j ≡ false
      → All (ReadsBack l id) addrs
      → collected l j (peer_words id addrs) ≡ []
  unfolding collected
  collected_other j [] d r = refl
  collected_other j (addr ∷ rest) d (r, rs) = rw (r, d) (collected_other j rest d rs)

abbrev pub Differs : Text → AddrInfo → Type 0
Differs id p = text_eq id p.id ≡ false

-- No two peers have one ID, and each has an address.
abbrev pub Separate : List AddrInfo → Type 0
Separate [] = Unit {0}
Separate (p ∷ ps) = (p.addrs ≢ []) × All (Differs p.id) ps × Separate ps

module _ (l : Libraries) where
  abbrev pub AllRead : AddrInfo → Type 0
  AllRead p = All (ReadsBack l p.id) p.addrs

  order_words :
      (s : Parsing) (ps : List AddrInfo)
      → Separate ps
      → All AllRead ps
      → All (λ p. lookup p.id s.infos ≡ none) ps
      → (parse_all l s (words ps)).order ≡ s.order ++ configured_ids ps
  unfolding configured_ids parse_all
  order_words s [] sep r fresh = sym (append-nil s.order)
  order_words s (p ∷ ps) (some_addrs, differ, sep) (r, rs) (f, fs) =
      let s' : Parsing = parse_all l s (peer_words p.id p.addrs) in
      let (put, same) = new_words l p.id s p.addrs some_addrs r f in
      ap (λ t. t.order) (parse_all-append l s (peer_words p.id p.addrs) (words ps))
      ∙ order_words s' ps sep rs (All-map₂ ps (λ q d n. same q.id d ∙ n) differ fs)
      ∙ ap (λ o. o ++ configured_ids ps) put
      ∙ append_assoc s.order (p.id ∷ []) (configured_ids ps)

  collected_none :
      (id : Text) (ps : List AddrInfo)
      → All (Differs id) ps
      → All AllRead ps
      → collected l id (words ps) ≡ []
  unfolding collected
  collected_none id [] d r = refl
  collected_none id (p ∷ ps) (d, ds) (r, rs) =
      collected-append l id (peer_words p.id p.addrs) (words ps)
      ∙ ap₂ ◌++◌
          (collected_other l p.id id p.addrs
            (ground (arith, text_eq_iff p.id id, text_eq_iff id p.id)) r)
          (collected_none id ps ds rs)

  collected-words :
      (ps : List AddrInfo)
      → Separate ps
      → All AllRead ps
      → All (λ p. collected l p.id (words ps) ≡ p.addrs) ps
  collected-words [] sep r = tt
  collected-words (p ∷ ps) (some_addrs, differ, sep) (r, rs) = (
    collected-append l p.id (peer_words p.id p.addrs) (words ps)
        ∙ ap₂ ◌++◌ (collected_own l p.id p.addrs r) (collected_none p.id ps differ rs)
        ∙ append-nil p.addrs,
    All-map₂ ps
        (λ q e d.
          collected-append l q.id (peer_words p.id p.addrs) (words ps)
          ∙ ap₂ ◌++◌ (collected_other l p.id q.id p.addrs d r) e)
        (collected-words ps sep rs) differ,
  )

  in_order_self :
      (infos : Dict (List Text)) (ps : List AddrInfo)
      → All (λ p. addrs_of (lookup p.id infos) ≡ p.addrs) ps
      → in_order infos (configured_ids ps) ≡ ps
  unfolding in_order configured_ids
  in_order_self infos [] h = refl
  in_order_self infos (p ∷ ps) (h, hs) =
      ap₂ (λ a others. record { id = p.id; addrs = a } ∷ others) h (in_order_self infos ps hs)

  parse_peers-words :
      (ps : List AddrInfo) → Separate ps → All AllRead ps → parse_peers l (words ps) ≡ ps
  unfolding parse_peers lookup
  parse_peers-words ps sep r =
      let empty : Parsing = record { infos = []; order = [] } in
      let s : Parsing = parse_all l empty (words ps) in
      ap (in_order s.infos) (order_words empty ps sep r (All-all ps))
      ∙ in_order_self s.infos ps (
          All-map ps (λ p h. parse_all-collected l empty (words ps) p.id ∙ h)
            (collected-words ps sep r))
    where
      All-all : (qs : List AddrInfo) → All (λ p. lookup {V = List Text} p.id [] ≡ none) qs
      All-all [] = tt
      All-all (q ∷ qs) = (refl, All-all qs)

  -- Where the library reads an address with /p2p/ and an ID as that peer at that address, the
  -- peers have distinct IDs and at least one address each, and there are no spaces in these,
  -- reading the text that writePeerSnapshot writes gives back the same peers in the same order,
  -- for as long as the file is not older than snapshotLifetime.
  pub read-write :
      (path : Text) (age : ℤ) (ps : List AddrInfo)
      → path ≢ []
      → ltb_ℤ snapshot_lifetime age ≡ false
      → Separate ps
      → All AllRead ps
      → All (λ p. All (λ addr. IsWord (named addr p.id)) p.addrs) ps
      → read_peer_snapshot l path (record { age = ok age; content = ok (snapshot_text ps) }) ≡ ps
  unfolding read_peer_snapshot text_eq
  read-write [] age ps named_path young sep r w = absurd (named_path refl)
  read-write (c ∷ path) age ps named_path young sep r w =
      rw young (ap (parse_peers l) (fields-snapshot_text ps w) ∙ parse_peers-words ps sep r)
