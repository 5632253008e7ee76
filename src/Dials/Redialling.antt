-- ===== src/Dials/Redialling.antt =====
-- client/node.go: `redial` asks only whether the dials of the peers have finished.
use ipfs_mobile.Prelude.{ℕ, zero, suc, ◌≡◌, refl, true, false, some, ap, ◌∙◌}
use ipfs_mobile.Dials.{dial_all, Dialled, still_running, redial}

-- So many further calls of `redial`, while no libp2p peer is connected and none is configured.
unfoldable pub redial_again : ℕ → ℕ → Dialled → Dialled
redial_again gateways zero n = redial 0 0 gateways n
redial_again gateways (suc k) n = redial_again gateways k (redial 0 0 gateways n)

redial_alone :
    (gateways : ℕ) (n : Dialled)
    → n.http ≡ true
    → still_running n.peer_dials ≡ false
    → redial 0 0 gateways n
      ≡ record n { peer_dials = some (dial_all 0); gateway_dials = some (dial_all gateways) }
unfolding redial
redial_alone gateways n http idle = rw (idle, http)

-- With gateways but no peers configured and no libp2p peer connected, every call of redial dials
-- all gateways again, whether or not the dials that the calls before it started have ended.
pub redial_stacks :
    (gateways k : ℕ) (n : Dialled)
    → n.http ≡ true
    → still_running n.peer_dials ≡ false
    → ((redial_again gateways k n).gateway_dials ≡ some (dial_all gateways))
      × (still_running (redial_again gateways k n).peer_dials ≡ false)
unfolding redial_again dial_all
redial_stacks gateways zero n http idle = rw (redial_alone gateways n http idle) (refl, refl)
redial_stacks gateways (suc k) n http idle =
    let alone = redial_alone gateways n http idle in
    redial_stacks gateways k (redial 0 0 gateways n) (ap (λ m. m.http) alone ∙ http)
      (ap (λ m. still_running m.peer_dials) alone)
