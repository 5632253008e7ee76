-- ===== src/Fetching/Delivered.antt =====
-- client/client.go: Get gets the node from a gateway where the block exchange does not have it.
use ipfs_mobile.Prelude.{
  ◌≡◌, refl, true, false, Option, none, some, List, ◌∷◌, ◌++◌, arith, sym, subst,
}
use ipfs_mobile.Prelude.Text.{Text}
use ipfs_mobile.Prelude.Int.{ℤ}
use ipfs_mobile.Errors.{Error, is_closed_err, as_size_limit, is_some, conclusive, await_download}
use ipfs_mobile.Durations.{RetryAfter}
use ipfs_mobile.FilePath.{slash}
use ipfs_mobile.Dag.{Node}
use ipfs_mobile.Fallback.{Cooldowns, Fetched, paused, gateway_cooling_down}
use ipfs_mobile.Scratch.{Host}
use ipfs_mobile.Scratch.Filled.{Delivered}
use ipfs_mobile.Archives.{Arrival}
use ipfs_mobile.Archives.Delivered.{Faithful, receive-Delivered}
use ipfs_mobile.Retrieval.{Settings, fallback_available, combined}
use ipfs_mobile.Fetching.{
  reply, Visit, fetch_on, after_fetch, visits_on, work_on, wait_for, Trip, fall_back_on,
  unless_over, unless_invalid, after_wait, get_on,
}

-- What Get leaves, with its error.
abbrev pub ended : Host × Fetched → Host × Option Error
ended (h, f) = (h, f.failure)

-- The first gateway that the loop comes to is let through and answers with an archive that lists the
-- node.
pub record FirstServes (c : Settings) (limit : ℤ) (cs : Cooldowns) (dir base name root : Text)
    (nd : Node) (t : Trip) (h : Host) : Type 0 where
  pub first_visit : Visit
  pub others : List Visit
  pub host : Text
  pub retry : RetryAfter
  pub arrival : Arrival
  pub visits : t.visits ≡ first_visit ∷ others
  pub open_client : first_visit.closed_before ≡ false
  pub warm :
      gateway_cooling_down
        (paused c.backoff cs first_visit.meanwhile)
        first_visit.now
        first_visit.gateway
      ≡ none
  pub answered : first_visit.reply ≡ reply host 200 retry arrival
  pub faithful : Faithful arrival limit dir base name root nd h

-- Get comes to its fallback: the CID parses, the primary phase fails with an error that is not
-- conclusive, and neither the context has ended nor the client been closed.
pub record ComesToFallback (c : Settings) (t : Trip) (primary : Option Error) : Type 0 where
  pub failure : Error
  pub parses : t.parse ≡ none
  pub failed : primary ≡ some failure
  pub inconclusive : conclusive failure ≡ false
  pub context_alive : t.context_after ≡ none
  pub open_client : t.closed_after ≡ false
  pub available : fallback_available c ≡ true

module _ (c : Settings) (limit : ℤ) (cs : Cooldowns) (dir base name root : Text) (nd : Node)
    (t : Trip) (h : Host) where
  abbrev output : Text
  output = dir ++ (slash ∷ base)

  asked-Delivered :
      (v : Visit) (made : Host × Cooldowns × Option Error) (further : Host × Fetched)
      → Delivered nd output (made.0, made.2)
      → Delivered nd output (ended (after_fetch v made further))
  asked-Delivered v (h', cs', none) further d = d
  asked-Delivered v (h', cs', some e) further d = absurd (cc (d.0))

  visits-Delivered :
      (s : FirstServes c limit cs dir base name root nd t h)
      → Delivered nd output
          (ended (visits_on c.backoff limit output cs h (s.first_visit ∷ s.others)))
  unfolding visits_on
  visits-Delivered s =
      let v = s.first_visit in
      let shared = paused c.backoff cs v.meanwhile in
      let made = fetch_on c.backoff limit output shared v.now v.reply h in
      let got : Delivered nd output (made.0, made.2) =
        subst
          (λ r.
            let m = fetch_on c.backoff limit output shared v.now r h in
            Delivered nd output (m.0, m.2))
          (sym s.answered) (receive-Delivered s.arrival limit dir base name root nd h s.faithful) in
      rw (s.open_client, s.warm)
        (asked-Delivered v made (visits_on c.backoff limit output made.1 made.0 s.others) got)

  combined-Delivered :
      (e : Error) (r : Host × Fetched)
      → Delivered nd output (ended r)
      → Delivered nd output (r.0, combined e (r.1).failure)
  combined-Delivered e r d =
      subst (λ f. Delivered nd output (r.0, combined e f)) (sym d.0) (refl, d.1)

  inconclusive_parts :
      (e : Error)
      → conclusive e ≡ false
      → (is_closed_err e ≡ false) × (is_some (as_size_limit e) ≡ false)
  unfolding conclusive
  inconclusive_parts e h = ground arith

  fall_back-Delivered :
      (primary : Option Error) (f : ComesToFallback c t primary)
      → FirstServes c limit cs dir base name root nd t h
      → Delivered nd output (ended (fall_back_on c limit output cs t h f.failure))
  fall_back-Delivered primary f s =
      rw (f.available, f.open_client)
        (combined-Delivered f.failure (visits_on c.backoff limit output cs h t.visits) (
          subst (λ vs. Delivered nd output (ended (visits_on c.backoff limit output cs h vs)))
            (sym s.visits) (visits-Delivered s)))

  after_wait-Delivered :
      (primary : Option Error) (f : ComesToFallback c t primary)
      → FirstServes c limit cs dir base name root nd t h
      → Delivered nd output (ended (after_wait c limit output cs t h primary))
  after_wait-Delivered primary f s =
      let (live, small) = inconclusive_parts f.failure f.inconclusive in
      subst (λ o. Delivered nd output (ended (after_wait c limit output cs t h o))) (sym f.failed)
        (rw (live, small)
          (subst (λ o. Delivered nd output (ended (unless_over c limit output cs t h f.failure o)))
            (sym f.context_alive) (fall_back-Delivered primary f s)))

-- Where the primary phase of Get fails with an error that is not conclusive, the unverified
-- fallback is allowed, neither the context has ended nor the client been closed, and the first
-- gateway is not cooling down and answers with status 200 and an archive that lists a plain node
-- which fits in the limit, on files on which Faithful holds, Get reports no error, and at and
-- below the output stands exactly what the node holds.
pub get_on-Delivered :
    (c : Settings) (limit : ℤ) (cs : Cooldowns) (dir base name root : Text) (nd : Node) (t : Trip)
    (h : Host)
    → (let w = wait_for t.waiting (work_on t.work limit (dir ++ (slash ∷ base)) h) in
        ComesToFallback c t (await_download w.1)
        × FirstServes c limit cs dir base name root nd t w.0)
    → Delivered nd (dir ++ (slash ∷ base)) (ended (get_on c limit (dir ++ (slash ∷ base)) cs t h))
unfolding get_on
get_on-Delivered c limit cs dir base name root nd t h (f, s) =
    let output = dir ++ (slash ∷ base) in
    let w = wait_for t.waiting (work_on t.work limit output h) in
    subst (λ o. Delivered nd output (ended (unless_invalid c limit output cs t h o))) (sym f.parses)
      (after_wait-Delivered c limit cs dir base name root nd t w.0 (await_download w.1) f s)
