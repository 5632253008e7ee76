-- ===== src/Setup/Addresses.antt =====
-- client/node.go: parsePeers gathers the addresses of each peer in the order of the configuration.
use ipfs_mobile.Prelude.{
  ◌≡◌, refl, inl, inr, Option, none, some, List, [], ◌∷◌, ◌++◌, ap, sym, ◌∙◌, append-nil,
  append_assoc,
}
use ipfs_mobile.Prelude.Tests.{if◌then◌else◌, Bool-cases}
use ipfs_mobile.Prelude.Lists.{All}
use ipfs_mobile.Prelude.Text.{Text, text_eq, text_eq_iff}
use ipfs_mobile.Prelude.Dict.{lookup, lookup-insert}
use ipfs_mobile.Errors.{Result, ok, err}
use ipfs_mobile.Peers.{AddrInfo}
use ipfs_mobile.Setup.{
  Libraries, Parsing, seen_with, add_peer, parse_all, addrs_of, in_order, parse_peers,
}

-- The addresses that one entry gives a peer.
abbrev pub given : Text → Result AddrInfo → List Text
given id (err e) = []
given id (ok p) = if text_eq p.id id then p.addrs else []

-- The addresses that all entries give a peer, the first entry's first.
unfoldable pub collected : Libraries → Text → List Text → List Text
collected l id [] = []
collected l id (t ∷ ts) = given id (l.p2p_addr t) ++ collected l id ts

seen_with-lookup :
    (s : Parsing) (p : AddrInfo) (id : Text) (o : Option (List Text))
    → lookup p.id s.infos ≡ o
    → addrs_of (lookup id (seen_with s p o).infos) ≡ addrs_of (lookup id s.infos) ++ given id (ok p)
seen_with-lookup s p id none h = elim (Bool-cases (text_eq p.id id)) [
  | inr n ↦ rw (lookup-insert, n, append-nil)
  | inl e ↦ rw (lookup-insert, e, sym ((text_eq_iff p.id id).0 e), h)
]
seen_with-lookup s p id (some addrs) h = elim (Bool-cases (text_eq p.id id)) [
  | inr n ↦ rw (lookup-insert, n, append-nil)
  | inl e ↦ rw (lookup-insert, e, sym ((text_eq_iff p.id id).0 e), h)
]

pub parse_all-collected :
    (l : Libraries) (s : Parsing) (ts : List Text) (id : Text)
    → addrs_of (lookup id (parse_all l s ts).infos)
      ≡ addrs_of (lookup id s.infos) ++ collected l id ts
unfolding parse_all collected
parse_all-collected l s [] id = sym (append-nil _)
parse_all-collected l s (t ∷ ts) id =
    parse_all-collected l (add_peer s (l.p2p_addr t)) ts id
    ∙ ap (λ a. a ++ collected l id ts) (added (l.p2p_addr t))
    ∙ append_assoc (addrs_of (lookup id s.infos)) (given id (l.p2p_addr t)) (collected l id ts)
  where
    added :
        (r : Result AddrInfo)
        → addrs_of (lookup id (add_peer s r).infos) ≡ addrs_of (lookup id s.infos) ++ given id r
    added (err e) = sym (append-nil _)
    added (ok p) = seen_with-lookup s p id (lookup p.id s.infos) refl

in_order-All :
    (l : Libraries) (ts : List Text) (s : Parsing)
    → ((id : Text) → addrs_of (lookup id s.infos) ≡ collected l id ts)
    → (ids : List Text) → All (λ p. p.addrs ≡ collected l p.id ts) (in_order s.infos ids)
unfolding in_order
in_order-All l ts s h [] = tt
in_order-All l ts s h (id ∷ rest) = (h id, in_order-All l ts s h rest)

-- parsePeers gives each peer the addresses of all its valid entries, in the order in which they
-- are configured.
pub parse_peers-collected :
    (l : Libraries) (ts : List Text) → All (λ p. p.addrs ≡ collected l p.id ts) (parse_peers l ts)
unfolding parse_peers lookup
parse_peers-collected l ts = in_order-All l ts s (λ id. parse_all-collected l _ ts id) s.order
  where
    s : Parsing
    s = parse_all l (record { infos = []; order = [] }) ts
