-- ===== src/Dials/Tests.antt =====
-- client/node.go: one gateway and one peer, and the theorems at them.
use ipfs_mobile.Prelude.{◌≡◌, ◌<◌, refl, true, false, none, some, List, [], ◌∷◌}
use ipfs_mobile.Prelude.Lists.{total}
use ipfs_mobile.Dials.{
  started, reachable, exhausted, first_peer, dialling, all_over, fresh_dials, dial_all, dial_step,
  answers, fails, proceeds, settles, times_out, Start, start_step, Action, gateway, peer, wake,
  advance, finishing_gateways, refused, step, run, initial, Dialled,
}
use ipfs_mobile.Dials.Invariant.{running}
use ipfs_mobile.Dials.Starting.{Truthful, run-Justified, groups-Truthful, start_loses_answer}

-- The gateway fails, the counts are read, and the peer is still being dialled.
abbrev history : List Action
history = gateway (fails 0) ∷ gateway settles ∷ wake times_out ∷ advance ∷ advance ∷ []

abbrev late : Start
late = run (initial 1 1 false) history

-- The gateway and the peer both fail, and startNode refuses.
abbrev hopeless : List Action
hopeless =
    gateway (fails 0)
    ∷ gateway settles
    ∷ peer (fails 0)
    ∷ peer settles
    ∷ wake exhausted
    ∷ advance
    ∷ advance
    ∷ advance
    ∷ advance
    ∷ []

abbrev spent : Start
spent = run (initial 1 1 false) hopeless

-- The peer answers, and startNode hands the node back.
abbrev lucky : List Action
lucky = peer (answers 0) ∷ peer (proceeds 0) ∷ wake first_peer ∷ advance ∷ advance ∷ []

abbrev reached : Start
reached = run (initial 1 1 false) lucky

reached-starter : reached.starter ≡ started reachable
unfolding run step start_step dial_step initial dial_all fresh_dials all_over
reached-starter = refl

run-Justified_example :
    (spent.delegated ≡ false)
    × (total running (spent.gateways).dials ≡ 0)
    × (total running (spent.peers).dials ≡ 0)
unfolding run step start_step dial_step initial dial_all fresh_dials all_over
run-Justified_example = run-Justified 1 1 false hopeless

spent-starter : spent.starter ≡ refused
unfolding run step start_step dial_step initial dial_all fresh_dials all_over
spent-starter = refl

groups-Truthful_example : Truthful late.gateways × Truthful late.peers
groups-Truthful_example = groups-Truthful 1 1 false history

late_lem :
    (late.starter ≡ finishing_gateways)
    × ((late.gateways).done ≡ true)
    × ((late.peers).dials ≡ dialling ∷ [])
unfolding run step start_step dial_step initial dial_all fresh_dials all_over
late_lem = (refl, refl, refl)

start_loses_answer_example :
    let t =
      run late (peer (answers 0) ∷ peer (proceeds 0) ∷ peer settles ∷ advance ∷ advance ∷ []) in
    (t.starter ≡ refused) × (0 < (t.peers).connected)
unfolding run step start_step dial_step initial dial_all fresh_dials all_over
start_loses_answer_example = start_loses_answer late 0 refl refl refl refl

abbrev lone : Dialled
lone = record { http = true; peer_dials = none; gateway_dials = some (dial_all 2) }
