-- ===== src/Snapshots/Words.antt =====
-- client/snapshot.go: the lines of a snapshot as words.
use ipfs_mobile.Prelude.{◌≡◌, ◌≢◌, refl, false, List, [], ◌∷◌, ◌++◌, ap, sym, ◌∙◌, append_assoc}
use ipfs_mobile.Prelude.Lists.{All}
use ipfs_mobile.Prelude.Text.{Text}
use ipfs_mobile.Peers.{AddrInfo, p2p, newline, peer_lines, snapshot_text}
use ipfs_mobile.Snapshots.{is_space, close_word, field_parts, fields}

-- The text that names one address of a peer.
abbrev pub named : Text → Text → Text
named addr id = addr ++ (p2p ++ id)

abbrev pub peer_words : Text → List Text → List Text
peer_words id [] = []
peer_words id (addr ∷ rest) = named addr id ∷ peer_words id rest

abbrev pub words : List AddrInfo → List Text
words [] = []
words (p ∷ ps) = peer_words p.id p.addrs ++ words ps

-- A word without a space.
abbrev pub IsWord : Text → Type 0
IsWord w = (w ≢ []) × All (λ c. is_space c ≡ false) w

field_parts-word :
    (w s : Text)
    → All (λ c. is_space c ≡ false) w
    → field_parts (w ++ (newline ++ s)) ≡ (w, fields s)
unfolding field_parts fields
field_parts-word [] s h = refl
field_parts-word (c ∷ w) s (h, hs) = rw (h, field_parts-word w s hs)

fields-word : (w s : Text) → IsWord w → fields (w ++ (newline ++ s)) ≡ w ∷ fields s
unfolding fields
fields-word [] s (h, hs) = absurd (h refl)
fields-word (c ∷ w) s (h, hs) = ap close_word (field_parts-word (c ∷ w) s hs)

fields_line :
    (id addr s : Text)
    → IsWord (named addr id)
    → fields (addr ++ (p2p ++ (id ++ (newline ++ s)))) ≡ named addr id ∷ fields s
fields_line id addr s h =
    ap fields (
      sym (
        append_assoc addr (p2p ++ id) (newline ++ s)
        ∙ ap (◌++◌ addr) (append_assoc p2p id (newline ++ s))))
    ∙ fields-word (named addr id) s h

fields-peer_lines :
    (id : Text) (addrs : List Text) (s : Text)
    → All (λ addr. IsWord (named addr id)) addrs
    → fields (peer_lines id addrs ++ s) ≡ peer_words id addrs ++ fields s
unfolding peer_lines
fields-peer_lines id [] s h = refl
fields-peer_lines id (addr ∷ rest) s (h, hs) =
    ap fields (
      append_assoc addr (p2p ++ (id ++ (newline ++ peer_lines id rest))) s
      ∙ ap (λ t. addr ++ (p2p ++ t)) (append_assoc id (newline ++ peer_lines id rest) s))
    ∙ fields_line id addr (peer_lines id rest ++ s) h
    ∙ ap (◌∷◌ (named addr id)) (fields-peer_lines id rest s hs)

-- The words of a snapshot's text are its peers' addresses, each with its ID.
pub fields-snapshot_text :
    (ps : List AddrInfo)
    → All (λ p. All (λ addr. IsWord (named addr p.id)) p.addrs) ps
    → fields (snapshot_text ps) ≡ words ps
unfolding snapshot_text fields field_parts
fields-snapshot_text [] h = refl
fields-snapshot_text (p ∷ ps) (h, hs) =
    fields-peer_lines p.id p.addrs (snapshot_text ps) h
    ∙ ap (◌++◌ (peer_words p.id p.addrs)) (fields-snapshot_text ps hs)
