-- ===== src/Setup/Routes.antt =====
-- client/client.go and client/gateway.go: what a client that New returns can rely on.
use ipfs_mobile.Prelude.{
  ℕ, ◌≡◌, ◌≢◌, refl, true, false, not, ◌&&◌, ◌⊎◌, inl, inr, Option, none, some, List, [], ◌∷◌, ap,
  sym, ◌∙◌, subst, arith,
}
use ipfs_mobile.Prelude.Tests.{◌==◌, Bool-cases}
use ipfs_mobile.Prelude.Lists.{length}
use ipfs_mobile.Prelude.Text.{Text, codes}
use ipfs_mobile.Errors.{Error, Result, ok, err, message}
use ipfs_mobile.Peers.{AddrInfo}
use ipfs_mobile.Resolver.{new_resolver}
use ipfs_mobile.Setup.{
  Libraries, Gateways, Config, NodeConfig, NewClient, parse_gateways, seed_size,
  check_identity_seed, has_route, finish, with_delegated, with_resolver, with_seed, new_client,
  parse_peers, node_config,
}

-- There is somewhere to fetch from.
abbrev pub Routed : NodeConfig → Type 0
Routed n = (n.peers ≢ []) ⊎ ((n.gateways ≢ []) ⊎ ((r : Text) × (n.delegated ≡ some r)))

has_route-Routed : (n : NodeConfig) → has_route n ≡ true → Routed n
has_route-Routed n h = go n.peers n.gateways n.delegated h
  where
    go :
        {A B : Type 0} (ps : List A) (gs : List B) (d : Option Text)
        → not ((length ps == 0) && ((length gs == 0) && elim d [ none ↦ true | some r ↦ false ]))
          ≡ true
        → (ps ≢ []) ⊎ ((gs ≢ []) ⊎ ((r : Text) × (d ≡ some r)))
    go (p ∷ ps) gs d h = inl (λ e. cc)
    go [] (g ∷ gs) d h = inr (inl (λ e. cc))
    go [] [] (some r) h = inr (inr (r, refl))
    go [] [] none h = cc

abbrev config_of : NodeConfig → Result NewClient → NodeConfig
config_of k (err e) = k
config_of k (ok n) = n.config

pub err-ne-ok : (e : Error) (n : NewClient) → err e ≢ ok n
err-ne-ok e n h = cc

finish-Routed :
    (c : Config) (g : Gateways) (r : Result NodeConfig) (n : NewClient)
    → finish c g r ≡ ok n
    → Routed n.config
finish-Routed c g (err e) n h = absurd (err-ne-ok e n h)
finish-Routed c g (ok k) n h = elim (Bool-cases (has_route k)) [
  | inl routed ↦ subst Routed (sym (made routed) ∙ ap (config_of k) h) (has_route-Routed k routed)
  | inr lost ↦ absurd (err-ne-ok _ n (sym (unmade lost) ∙ h))
]
  where
    made : has_route k ≡ true → config_of k (finish c g (ok k)) ≡ k
    made routed = rw routed

    unmade :
        has_route k ≡ false
        → finish c g (ok k) ≡ err (message (codes "there is nowhere to fetch from"))
    unmade lost = rw lost

with_resolver-Routed :
    (l : Libraries) (c : Config) (ps : List AddrInfo) (g : Gateways)
    (o : Result (Option (List Text))) (n : NewClient)
    → with_resolver l c ps g o ≡ ok n
    → Routed n.config
with_resolver-Routed l c ps g (err e) n h = absurd (err-ne-ok e n h)
with_resolver-Routed l c ps g (ok r) n h =
    finish-Routed c g (with_delegated l c.delegated_routing_endpoint (node_config c ps g r)) n h

abbrev pub Sized : List ℕ → Type 0
Sized seed = (length seed ≡ 0) ⊎ (length seed ≡ seed_size)

check_identity_seed-Sized : (seed : List ℕ) → check_identity_seed seed ≡ none → Sized seed
unfolding check_identity_seed
check_identity_seed-Sized seed h = ground arith

with_seed-Routed :
    (l : Libraries) (c : Config) (ps : List AddrInfo) (g : Gateways) (o : Option Error)
    (n : NewClient)
    → check_identity_seed c.identity_seed ≡ o
    → with_seed l c ps g o ≡ ok n
    → Routed n.config × Sized c.identity_seed
with_seed-Routed l c ps g (some e) n checked h = absurd (err-ne-ok e n h)
with_seed-Routed l c ps g none n checked h = (
  with_resolver-Routed l c ps g (new_resolver l.net c.dns_servers) n h,
  check_identity_seed-Sized c.identity_seed checked,
)

-- A client that New returns has a bootstrap peer, a gateway or a delegated router to fetch from,
-- and its identity seed is empty or of SeedSize bytes.
pub new_client-Routed :
    (l : Libraries) (c : Config) (n : NewClient)
    → new_client l c ≡ ok n
    → Routed n.config × Sized c.identity_seed
unfolding new_client
new_client-Routed l c n h =
    with_seed-Routed l c (parse_peers l c.bootstrap_peers) (parse_gateways l c.gateways)
      (check_identity_seed c.identity_seed) n refl h
