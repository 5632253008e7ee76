-- ===== src/Snapshots.antt =====
-- client/snapshot.go: `readPeerSnapshot` and `writePeerSnapshot`, with the file system between their
-- system calls. Texts are ASCII.
use ipfs_mobile.Prelude.{
  ℕ, ◌*◌, Bool, true, false, ◌&&◌, ◌||◌, Option, none, some, List, [], ◌∷◌, ◌++◌,
}
use ipfs_mobile.Prelude.Tests.{ltb, leb, ◌==◌, if◌then◌else◌}
use ipfs_mobile.Prelude.Text.{Text, text_eq}
use ipfs_mobile.Prelude.Dict.{Dict, lookup, insert, erase}
use ipfs_mobile.Prelude.Int.{ℤ, pos, ltb_ℤ}
use ipfs_mobile.Storage.{take}
use ipfs_mobile.Errors.{Error, Result, ok, err}
use ipfs_mobile.FilePath.{push_head}
use ipfs_mobile.Durations.{second}
use ipfs_mobile.Peers.{AddrInfo, snapshot_text}
use ipfs_mobile.Setup.{Libraries, parse_peers}
pub mod Words
pub mod RoundTrip
pub mod Atomic
pub mod Tests

-- What `unicode.IsSpace` holds of an ASCII byte.
abbrev pub is_space : ℕ → Bool
is_space c = (leb 9 c && leb c 13) || (c == 32)

-- The first word of a text, if it does not begin with a space, and those after it.
abbrev pub add_byte : ℕ → Text × List Text → Text × List Text
add_byte c (word, words) = (c ∷ word, words)

abbrev pub close_word : Text × List Text → List Text
close_word ([], words) = words
close_word (c ∷ word, words) = (c ∷ word) ∷ words

unfoldable pub field_parts : Text → Text × List Text
field_parts [] = ([], [])
field_parts (c ∷ s) =
    let rest = field_parts s in if is_space c then ([], close_word rest) else add_byte c rest

-- `strings.Fields`.
unfoldable pub fields : Text → List Text
unfolding field_parts
fields s = close_word (field_parts s)

-- `snapshotLifetime`, in nanoseconds.
abbrev pub snapshot_lifetime : ℤ
snapshot_lifetime = pos (24 * 3600 * second)

-- What `os.Stat` says of the file's age, and what `os.ReadFile` returns.
pub record Saved : Type 0 where
  pub age : Result ℤ
  pub content : Result Text

abbrev pub read_fresh : Libraries → Result Text → List AddrInfo
read_fresh l (err e) = []
read_fresh l (ok text) = parse_peers l (fields text)

abbrev pub read_aged : Libraries → Saved → Result ℤ → List AddrInfo
read_aged l saved (err e) = []
read_aged l saved (ok age) = if ltb_ℤ snapshot_lifetime age then [] else read_fresh l saved.content

-- `readPeerSnapshot`.
unfoldable pub read_peer_snapshot : Libraries → Text → Saved → List AddrInfo
unfolding fields
read_peer_snapshot l path saved = if text_eq path [] then [] else read_aged l saved saved.age

-- What the system calls of `writePeerSnapshot` return: the path of the partial file; an error of
-- the write, with how many bytes arrived; and errors of the close and the rename.
pub record Writing : Type 0 where
  pub partial : Result Text
  pub written : ℕ
  pub write : Option Error
  pub close : Option Error
  pub rename : Option Error

-- The contents of the files after each system call, the first one first, and the error.
abbrev pub Trace : Type 0
Trace = List (Dict Text) × Option Error

abbrev pub renamed : Text → Text → Text → Dict Text → Option Error → Trace
renamed temp path text fs (some e) = (insert temp text fs ∷ erase temp fs ∷ [], some e)
renamed temp path text fs none =
    let done = insert path text (erase temp fs) in
    (insert temp text fs ∷ done ∷ erase temp done ∷ [], none)

abbrev pub closed_file : Writing → Text → Text → Text → Dict Text → Option Error → Trace
closed_file w temp path text fs (some e) = (insert temp text fs ∷ erase temp fs ∷ [], some e)
closed_file w temp path text fs none = renamed temp path text fs w.rename

abbrev pub filled : Writing → Text → Text → Text → Dict Text → Option Error → Trace
filled w temp path text fs (some e) =
    (insert temp (take w.written text) fs ∷ erase temp fs ∷ [], some e)
filled w temp path text fs none = closed_file w temp path text fs w.close

abbrev pub created : Writing → Text → Text → Dict Text → Result Text → Trace
created w path text fs (err e) = ([], some e)
created w path text fs (ok temp) =
    let (states, e) = filled w temp path text fs w.write in (insert temp [] fs ∷ states, e)

abbrev pub is_empty {ℓ} : {A : Type ℓ} → List A → Bool
is_empty [] = true
is_empty (x ∷ xs) = false

-- `writePeerSnapshot`.
unfoldable pub write_peer_snapshot : Writing → Text → List AddrInfo → Dict Text → Trace
write_peer_snapshot w path peers fs =
    if text_eq path [] || is_empty peers
    then ([], none)
    else created w path (snapshot_text peers) fs w.partial
