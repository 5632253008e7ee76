-- ===== src/Fetching/Aside.antt =====
-- client/client.go: Get leaves everything alone that is not its output or a staging directory.
use ipfs_mobile.Prelude.{
  ℕ, ◌≡◌, refl, Bool, true, false, inl, inr, Option, none, some, List, [], ◌∷◌, ◌++◌, ◌∙◌,
}
use ipfs_mobile.Prelude.Tests.{Bool-cases, ◌==◌}
use ipfs_mobile.Prelude.Lists.{All}
use ipfs_mobile.Prelude.Text.{Text}
use ipfs_mobile.Prelude.Dict.{lookup}
use ipfs_mobile.Prelude.Int.{ℤ}
use ipfs_mobile.Errors.{Error, ContextErr, is_closed_err, as_size_limit, is_some, await_download}
use ipfs_mobile.Durations.{Backoff}
use ipfs_mobile.FilePath.{slash}
use ipfs_mobile.Tar.Folders.{Folders}
use ipfs_mobile.Fallback.{Cooldowns, Fetched, verdict, paused, gateway_cooling_down}
use ipfs_mobile.Staging.{scratch_prefix, gateway_scratch_prefix}
use ipfs_mobile.Scratch.{Host}
use ipfs_mobile.Scratch.Aside.{Elsewhere}
use ipfs_mobile.Archives.{receive}
use ipfs_mobile.Archives.Confined.{receive_other}
use ipfs_mobile.Download.{download}
use ipfs_mobile.Download.Confined.{download_other}
use ipfs_mobile.Retrieval.{Settings, fallback_available}
use ipfs_mobile.Fetching.{
  Reply, no_reply, reply, Visit, fetch_on, after_fetch, after_verdict, visiting, unless_over,
  unless_invalid, visits_on, Work, not_acquired, downloading, Waiting, in_time, late, abandoned,
  work_on, wait_for, Trip, fall_back_on, after_wait, get_on,
}
use ipfs_mobile.Fetching.Above.{
  ReplyAside, WorkAside, above-NameAside, above-Spared, above-Elsewhere, above-Folders,
}

module _ (dir base q : Text) (elsewhere : Elsewhere dir base q) where
  abbrev output : Text
  output = dir ++ (slash ∷ base)

  -- The path is as it was, and the directory stands with all above it.
  abbrev pub Leaves : Host → Host → Type 0
  Leaves h h' = (lookup q (h'.files).entries ≡ lookup q (h.files).entries) × Folders h'.files dir

  -- A download that goes on in the background has left them alone so far.
  abbrev pub WaitAside : Host → Waiting → Type 0
  WaitAside h (in_time c) = Unit
  WaitAside h (late c) = Unit
  WaitAside h (abandoned c h') = Leaves h h'

  module _ (limit : ℤ) where
    work-Leaves :
        (w : Work) (h : Host)
        → WorkAside dir q w
        → Folders h.files dir
        → Leaves h (work_on w limit output h).0
    work-Leaves (not_acquired e) h aside standing = (refl, standing)
    work-Leaves (downloading s) h (chosen, spared) standing = (
      download_other s limit dir base q h elsewhere chosen spared,
      above-Folders dir base q elsewhere h.files ((download s limit output h).0).files
          (λ p short.
            download_other s limit dir base p h (above-Elsewhere dir base q elsewhere p short)
              (above-NameAside dir q p s.scratch_name short chosen)
              (above-Spared dir scratch_prefix q p s.listing short spared))
          standing,
    )

    fetch-Leaves :
        (b : Backoff) (cs : Cooldowns) (now : ℕ) (r : Reply) (h : Host)
        → ReplyAside dir q r
        → Folders h.files dir
        → Leaves h (fetch_on b limit output cs now r h).0
    fetch-Leaves b cs now (no_reply e) h aside standing = (refl, standing)
    fetch-Leaves b cs now (reply host status retry a) h (chosen, spared) standing =
        elim (Bool-cases (status == 200)) [
          | inr bad ↦ rw bad (refl, standing)
          | inl good ↦ rw good (
            receive_other a limit dir base q h elsewhere chosen spared standing,
            above-Folders dir base q elsewhere h.files ((receive a limit output h).0).files
                (λ p short.
                  receive_other a limit dir base p h (above-Elsewhere dir base q elsewhere p short)
                    (above-NameAside dir q p a.scratch_name short chosen)
                    (above-Spared dir gateway_scratch_prefix q p a.listing short spared) standing)
                standing,
          )
        ]

    Leaves-Leaves : (a b c : Host) → Leaves a b → Leaves b c → Leaves a c
    Leaves-Leaves a b c (h, s) (k, s') = (k ∙ h, s')

    fetched-Leaves :
        (v : Visit) (h : Host) (made : Host × Cooldowns × Option Error) (further : Host × Fetched)
        → Leaves h made.0
        → Leaves h further.0
        → Leaves h (after_fetch v made further).0
    fetched-Leaves v h (h', cs, none) further one more = one
    fetched-Leaves v h (h', cs, some e) further one more =
        decided (verdict v.closed_after v.context_after e)
      where
        decided : (o : Option Error) → Leaves h (after_verdict h' cs further o).0
        decided (some f) = one
        decided none = more

    visiting-Leaves :
        (v : Visit) (cs : Cooldowns) (h : Host) (made : Host × Cooldowns × Option Error)
        (skipped further : Host × Fetched) (shut : Bool) (cooling : Option ℕ)
        → Folders h.files dir
        → Leaves h made.0
        → Leaves h skipped.0
        → Leaves h further.0
        → Leaves h (visiting v cs h made skipped further shut cooling).0
    visiting-Leaves v cs h made skipped further true cooling standing one past more =
        (refl, standing)
    visiting-Leaves v cs h made skipped further false (some d) standing one past more = past
    visiting-Leaves v cs h made skipped further false none standing one past more =
        fetched-Leaves v h made further one more

    visits-Leaves :
        (b : Backoff) (cs : Cooldowns) (h : Host) (vs : List Visit)
        → All (λ v. ReplyAside dir q v.reply) vs
        → Folders h.files dir
        → Leaves h (visits_on b limit output cs h vs).0
    unfolding visits_on
    visits-Leaves b cs h [] asides standing = (refl, standing)
    visits-Leaves b cs h (v ∷ vs) (aside, asides) standing =
        let shared = paused b cs v.meanwhile in
        let made = fetch_on b limit output shared v.now v.reply h in
        let one = fetch-Leaves b shared v.now v.reply h aside standing in
        visiting-Leaves v shared h made (visits_on b limit output shared h vs)
          (visits_on b limit output made.1 made.0 vs) v.closed_before
          (gateway_cooling_down shared v.now v.gateway) standing one
          (visits-Leaves b shared h vs asides standing)
          (Leaves-Leaves h made.0 (visits_on b limit output made.1 made.0 vs).0 one
            (visits-Leaves b made.1 made.0 vs asides one.1))

    module _ (c : Settings) (cs : Cooldowns) (t : Trip)
        (asides : All (λ v. ReplyAside dir q v.reply) t.visits) where
      fall_back-Leaves :
          (h : Host) (e : Error)
          → Folders h.files dir
          → Leaves h (fall_back_on c limit output cs t h e).0
      fall_back-Leaves h e standing = elim (Bool-cases (fallback_available c)) [
        | inr off ↦ rw off (refl, standing)
        | inl on ↦ elim (Bool-cases t.closed_after) [
          | inl shut ↦ rw (on, shut) (refl, standing)
          | inr live ↦ rw (on, live) (visits-Leaves c.backoff cs h t.visits asides standing)
        ]
      ]

      unless_over-Leaves :
          (h : Host) (e : Error) (o : Option ContextErr)
          → Folders h.files dir
          → Leaves h (unless_over c limit output cs t h e o).0
      unless_over-Leaves h e (some ended) standing = (refl, standing)
      unless_over-Leaves h e none standing = fall_back-Leaves h e standing

      after_wait-Leaves :
          (h : Host) (o : Option Error)
          → Folders h.files dir
          → Leaves h (after_wait c limit output cs t h o).0
      after_wait-Leaves h none standing = (refl, standing)
      after_wait-Leaves h (some e) standing = elim (Bool-cases (is_closed_err e)) [
        | inl shut ↦ rw shut (refl, standing)
        | inr live ↦ elim (Bool-cases (is_some (as_size_limit e))) [
          | inl large ↦ rw (live, large) (refl, standing)
          | inr small ↦ rw (live, small) (unless_over-Leaves h e t.context_after standing)
        ]
      ]

      wait-Leaves :
          (h : Host) (w : Waiting) (r : Host × Option Error)
          → Leaves h r.0
          → WaitAside h w
          → Leaves h (wait_for w r).0
      wait-Leaves h (in_time c) (h', e) one aside = one
      wait-Leaves h (late c) (h', e) one aside = one
      wait-Leaves h (abandoned c h'') (h', e) one aside = aside

      unless_invalid-Leaves :
          (h : Host) (o : Option Error)
          → WorkAside dir q t.work
          → WaitAside h t.waiting
          → Folders h.files dir
          → Leaves h (unless_invalid c limit output cs t h o).0
      unless_invalid-Leaves h (some e) aside waits standing = (refl, standing)
      unless_invalid-Leaves h none aside waits standing =
          let w = wait_for t.waiting (work_on t.work limit output h) in
          let one = wait-Leaves h t.waiting _ (work-Leaves t.work h aside standing) waits in
          Leaves-Leaves h w.0 (after_wait c limit output cs t w.0 (await_download w.1)).0 one
            (after_wait-Leaves w.0 (await_download w.1) one.1)

      -- Where the output is a name in a clean directory that is neither the root nor the working
      -- directory, does not end with a slash and stands with all above it, and ReadDir lists names
      -- and MkdirTemp chooses names, where it does not fail, Get leaves every path alone that is
      -- neither at or below the output, nor at or below a staging directory of its download or of
      -- a response, nor at or below a listed name with their prefixes, whatever the blocks and the
      -- gateways hold and however its two phases end, if a download that it no longer waits for
      -- has left the path and the folders above the output alone so far.
      pub get_on_aside :
          (h : Host)
          → WorkAside dir q t.work
          → WaitAside h t.waiting
          → Folders h.files dir
          → lookup q (((get_on c limit output cs t h).0).files).entries ≡ lookup q (h.files).entries
      unfolding get_on
      get_on_aside h aside waits standing = (unless_invalid-Leaves h t.parse aside waits standing).0
