-- ===== src/Snapshots/Atomic.antt =====
-- client/snapshot.go: a reader sees one snapshot or the other, never half of one.
use ipfs_mobile.Prelude.{◌≡◌, false, ◌||◌, ◌⊎◌, inl, inr, Option, none, some, List, []}
use ipfs_mobile.Prelude.Tests.{Bool-cases}
use ipfs_mobile.Prelude.Lists.{All}
use ipfs_mobile.Prelude.Text.{Text, text_eq, text_eq_refl}
use ipfs_mobile.Prelude.Dict.{Dict, lookup, insert, erase, lookup-insert, lookup-erase}
use ipfs_mobile.Errors.{Error, Result, ok, err}
use ipfs_mobile.Storage.{take}
use ipfs_mobile.Peers.{AddrInfo, snapshot_text}
use ipfs_mobile.Snapshots.{
  Writing, renamed, closed_file, filled, created, is_empty, write_peer_snapshot,
}

-- The path has its old content or the new one.
abbrev pub OldOrNew : Text → Text → Dict Text → Dict Text → Type 0
OldOrNew path text old fs = (lookup path fs ≡ lookup path old) ⊎ (lookup path fs ≡ some text)

-- The partial file is another than the snapshot.
abbrev pub OtherFile : Text → Result Text → Type 0
OtherFile path (ok temp) = text_eq temp path ≡ false
OtherFile path (err e) = Unit {0}

module _ (path temp text : Text) (fs : Dict Text) (other : text_eq temp path ≡ false) where
  with_partial : (v : Text) → OldOrNew path text fs (insert temp v fs)
  with_partial v = inl (rw (lookup-insert, other))

  without_partial : OldOrNew path text fs (erase temp fs)
  without_partial = inl (rw (lookup-erase, other))

  renamed-OldOrNew :
      (o : Option Error) → All (OldOrNew path text fs) (renamed temp path text fs o).0
  renamed-OldOrNew (some e) = (with_partial text, (without_partial, tt))
  renamed-OldOrNew none = (
    with_partial text,
    (
      inr (rw (lookup-insert, text_eq_refl path)),
      (inr (rw (lookup-erase, other, lookup-insert, text_eq_refl path)), tt),
    ),
  )

  filled-OldOrNew :
      (w : Writing) (o : Option Error)
      → All (OldOrNew path text fs) (filled w temp path text fs o).0
  filled-OldOrNew w (some e) = (with_partial (take w.written text), (without_partial, tt))
  filled-OldOrNew w none = closed w.close
    where
      closed :
          (c : Option Error) → All (OldOrNew path text fs) (closed_file w temp path text fs c).0
      closed (some e) = (with_partial text, (without_partial, tt))
      closed none = renamed-OldOrNew w.rename

-- After each system call of writePeerSnapshot, whichever of them fail, the snapshot's path has the
-- content that it had before or all the lines of the new peers, where the partial file is another
-- file.
pub write_peer_snapshot-OldOrNew :
    (w : Writing) (path : Text) (peers : List AddrInfo) (fs : Dict Text)
    → OtherFile path w.partial
    → All (OldOrNew path (snapshot_text peers) fs) (write_peer_snapshot w path peers fs).0
unfolding write_peer_snapshot
write_peer_snapshot-OldOrNew w path peers fs other =
    elim (Bool-cases (text_eq path [] || is_empty peers)) [
      | inl nothing ↦ rw nothing tt
      | inr some_peers ↦ rw some_peers (go w.partial other)
    ]
  where
    go :
        (r : Result Text)
        → OtherFile path r
        → All (OldOrNew path (snapshot_text peers) fs) (created w path (snapshot_text peers) fs r).0
    go (err e) o = tt
    go (ok temp) o = (
      with_partial path temp (snapshot_text peers) fs o [],
      filled-OldOrNew path temp (snapshot_text peers) fs o w w.write,
    )
