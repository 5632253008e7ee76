-- ===== src/Setup/Timeouts.antt =====
-- client/client.go: the durations of a client that New returns.
use ipfs_mobile.Prelude.{
  ◌≡◌, refl, true, false, inl, inr, Option, none, some, List, ap, sym, ◌∙◌, subst,
}
use ipfs_mobile.Prelude.Tests.{Bool-cases}
use ipfs_mobile.Prelude.Text.{Text, codes}
use ipfs_mobile.Errors.{Error, Result, ok, err, message}
use ipfs_mobile.Durations.{or_default}
use ipfs_mobile.Peers.{AddrInfo}
use ipfs_mobile.Resolver.{new_resolver}
use ipfs_mobile.Setup.Routes.{err-ne-ok}
use ipfs_mobile.Setup.{
  Libraries, Gateways, Config, NodeConfig, NewClient, default_timeout, has_route, finish,
  with_delegated, with_resolver, with_seed, new_client, node_config, parse_peers, parse_gateways,
  check_identity_seed,
}

-- The client's durations are those of the configuration, with the defaults.
pub record Timed (c : Config) (n : NewClient) : Type 0 where
  pub idle_kept : n.idle ≡ c.idle_timeout
  pub primary_set : n.primary_timeout ≡ or_default c.primary_timeout default_timeout
  pub step_set : n.fallback_step_timeout ≡ or_default c.fallback_step_timeout default_timeout

abbrev made_or : NewClient → Result NewClient → NewClient
made_or n (err e) = n
made_or n (ok m) = m

module _ (l : Libraries) (c : Config) (n : NewClient) where
  finish-Timed : (g : Gateways) (r : Result NodeConfig) → finish c g r ≡ ok n → Timed c n
  finish-Timed g (err e) h = absurd (err-ne-ok e n h)
  finish-Timed g (ok k) h = elim (Bool-cases (has_route k)) [
    | inl routed ↦ subst (Timed c) (ap (made_or n) h) (made routed)
    | inr lost ↦ absurd (err-ne-ok _ n (sym (unmade lost) ∙ h))
  ]
    where
      made : has_route k ≡ true → Timed c (made_or n (finish c g (ok k)))
      made routed = rw routed (record { idle_kept = refl; primary_set = refl; step_set = refl })

      unmade :
          has_route k ≡ false
          → finish c g (ok k) ≡ err (message (codes "there is nowhere to fetch from"))
      unmade lost = rw lost

  with_resolver-Timed :
      (ps : List AddrInfo) (g : Gateways) (o : Result (Option (List Text)))
      → with_resolver l c ps g o ≡ ok n
      → Timed c n
  with_resolver-Timed ps g (err e) h = absurd (err-ne-ok e n h)
  with_resolver-Timed ps g (ok r) h =
      finish-Timed g (with_delegated l c.delegated_routing_endpoint (node_config c ps g r)) h

  with_seed-Timed :
      (ps : List AddrInfo) (g : Gateways) (o : Option Error)
      → with_seed l c ps g o ≡ ok n
      → Timed c n
  with_seed-Timed ps g (some e) h = absurd (err-ne-ok e n h)
  with_seed-Timed ps g none h = with_resolver-Timed ps g (new_resolver l.net c.dns_servers) h

  -- A client that New returns keeps the idle timeout of its configuration, and has the timeouts of
  -- it that are positive and the default for each other.
  pub new_client-Timed : new_client l c ≡ ok n → Timed c n
  unfolding new_client
  new_client-Timed h =
      with_seed-Timed (parse_peers l c.bootstrap_peers) (parse_gateways l c.gateways)
        (check_identity_seed c.identity_seed) h
