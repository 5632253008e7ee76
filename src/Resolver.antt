-- ===== src/Resolver.antt =====
-- client/resolver.go: the servers that TXT lookups are sent to, and the cache of their answers.
use ipfs_mobile.Prelude.{
  ℕ, ◌+◌, ◌-◌, ◌%◌, ◌^◌, Bool, true, false, not, Option, none, some, List, [], ◌∷◌,
}
use ipfs_mobile.Prelude.Tests.{ltb, leb, ◌==◌, if◌then◌else◌}
use ipfs_mobile.Prelude.Lists.{length, get_elem?}
use ipfs_mobile.Prelude.Text.{Text, codes}
use ipfs_mobile.Prelude.Dict.{Dict, lookup, insert}
use ipfs_mobile.Errors.{Error, Result, ok, err, message}
pub mod Cache
pub mod Tests

-- `txtAnswerLimit`.
abbrev pub txt_answer_limit : ℕ
txt_answer_limit = 64

-- `txtAnswerLifetime`, in nanoseconds.
abbrev pub txt_answer_lifetime : ℕ
txt_answer_lifetime = 3_600_000_000_000

-- `txtAnswer`.
pub record TxtAnswer : Type 0 where
  pub records : List Text
  pub until : ℕ

-- `txtCache`.
abbrev pub TxtCache : Type 0
TxtCache = Dict TxtAnswer

abbrev pub expired_at : ℕ → TxtAnswer → Bool
expired_at now a = ltb a.until now

abbrev pub still_held : ℕ → Option TxtAnswer → Option (List Text)
still_held now none = none
still_held now (some a) = if expired_at now a then none else some a.records

-- `txtCache.lookup`.
unfoldable pub cache_lookup : TxtCache → ℕ → Text → Option (List Text)
cache_lookup cache now name = still_held now (lookup name cache)

-- The loop of `txtCache.keep` that deletes what has expired. The clock stands still in it.
unfoldable pub evict : ℕ → TxtCache → TxtCache
evict now [] = []
evict now ((name, a) ∷ rest) =
    let others = evict now rest in if expired_at now a then others else (name, a) ∷ others

abbrev pub stored_answer : TxtCache → ℕ → Text → List Text → TxtCache
stored_answer cache now name records =
    insert name (record { records = records; until = now + txt_answer_lifetime }) cache

-- `txtCache.keep`.
unfoldable pub keep : TxtCache → ℕ → Text → List Text → TxtCache
unfolding evict
keep cache now name records =
    if leb txt_answer_limit (length cache)
    then (let rest = evict now cache in
        if leb txt_answer_limit (length rest) then rest else stored_answer rest now name records)
    else stored_answer cache now name records

abbrev pub answered : TxtCache → ℕ → Text → Result (List Text) → TxtCache × Result (List Text)
answered cache later name (err e) = (cache, err e)
answered cache later name (ok records) = (keep cache later name records, ok records)

-- `txtOverride.LookupTXT`: the clock at the lookup and at the answer, and what the servers answer.
unfoldable pub lookup_txt :
    TxtCache → ℕ → ℕ → Text → Result (List Text) → TxtCache × Result (List Text)
unfolding keep
lookup_txt cache now later name answer = elim (cache_lookup cache now name) [
  | some records ↦ (cache, ok records)
  | none ↦ answered cache later name answer
]

-- What `net` and `netip` find in the text of a server: whether it splits into host and port,
-- whether it is an address, and the two joined with a port.
pub record Net : Type 0 where
  pub splits : Text → Bool
  pub is_addr : Text → Bool
  pub join_port : Text → Text → Text

abbrev pub dns_port : Text
dns_port = codes "53"

-- `dnsServerAddr`.
unfoldable pub dns_server_addr : Net → Text → Result Text
dns_server_addr net server =
    if net.splits server
    then ok server
    else if not (net.is_addr server)
    then err (message (codes "not an ip address"))
    else ok (net.join_port server dns_port)

abbrev pub accepted : Result Text → List Text → List Text
accepted (err e) rest = rest
accepted (ok addr) rest = addr ∷ rest

-- The loop of `newResolver`.
unfoldable pub server_addrs : Net → List Text → List Text
unfolding dns_server_addr
server_addrs net [] = []
server_addrs net (server ∷ rest) = accepted (dns_server_addr net server) (server_addrs net rest)

abbrev pub usable : List Text → Result (Option (List Text))
usable [] = err (message (codes "none of the configured dns servers is a valid address"))
usable (a ∷ rest) = ok (some (a ∷ rest))

-- `newResolver`, up to the servers that it dials: none leaves libp2p its own resolver.
unfoldable pub new_resolver : Net → List Text → Result (Option (List Text))
unfolding server_addrs
new_resolver net [] = ok none
new_resolver net (server ∷ rest) = usable (server_addrs net (server ∷ rest))

-- `addrs[i % len(addrs)]` for an int `i`, whose pattern is given; `none` is a panic.
abbrev pub chosen : List Text → ℕ → Option Text
chosen addrs i =
    if ltb i (2 ^ 63)
    then get_elem? addrs (i % length addrs)
    else if (2 ^ 64 - i) % length addrs == 0
    then get_elem? addrs 0
    else none

-- `Dial`: the counter after `next.Add(1)`, a uint64, and the server that the query is sent to.
unfoldable pub dial : List Text → ℕ → ℕ × Option Text
dial addrs next =
    let counter = (next + 1) % 2 ^ 64 in (counter, chosen addrs ((counter + (2 ^ 64 - 1)) % 2 ^ 64))
