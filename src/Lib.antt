-- ===== src/Lib.antt =====
-- The IPFS client for phones: client/ is a Go package that downloads the content of a CID from
-- libp2p peers and HTTP gateways, with every block verified, and from gateways unverified where the
-- caller allows that; ffi/ is the face that gomobile binds for Kotlin, and utils/ two helpers.
--
-- How the parts interact: ffi.Client.Get sets a deadline and calls client.Client.Get, which runs the
-- primary phase (acquire a node, download and materialise the DAG, replace the output) and after it
-- the fallback (fetchFromGateways). One node is shared by the downloads of a Client and closed when
-- idle or by Close. Both phases write into a staging directory and move the result into place.
--
-- Which file models which part:
--   Prelude        shared names; lists, maps and integers over the native numbers, Go strings as
--                  lists of bytes, a Go map as an association list
--   Errors         ErrClosed, SizeLimitError, errors.As and errors.Is on a chain, contextError,
--                  conclusive, sizeLimitWithTotals and awaitDownload (client/client.go,
--                  client/fallback.go)
--   Durations      milliseconds and withTimeout (ffi/ffi.go), orDefault (client/client.go) and
--                  retryAfterDelay (client/fallback.go), on 64-bit counts of nanoseconds
--   Lifecycle      Client with acquire, release, stopTimer, closeIdle and Close (client/client.go).
--                  Each section under the mutex is a function on Client: enter and settle for the
--                  two of acquire, release, close_idle, close. Lifecycle.System interleaves any
--                  number of downloads, idle callbacks and Close as a step function on a system of
--                  goroutines, which a list of actions runs
--   FilePath       filepath.Clean, Join and Dir and the functions of strings that the client uses
--   Storage        writeLimited with io.LimitReader and the int64 arithmetic of its limit, on a file
--                  system that is a map from paths to entries and may refuse any creation
--   Tar            resolveTarPath and extractTar (client/fallback.go)
--   Dag            materialise and validEntryName (client/node.go)
--   Locks          pathLocks.lock (client/output.go) with any number of callers, interleaved
--   Fallback       gatewayCoolingDown, startGatewayCooldown, fetchFromGateway and
--                  fetchFromGateways (client/fallback.go)
--   Retrieval      Client.Get, fallbackAvailable and primaryDeadline (client/client.go)
--   Resolver       txtCache, LookupTXT, dnsServerAddr and newResolver (client/resolver.go)
--   Setup          New (client/client.go), parsePeers (client/node.go), parseGateways
--                  (client/gateway.go) and checkIdentitySeed (client/identity.go)
--   Staging        claimScratch and sweepScratchPrefix (client/node.go) with the registry of live
--                  staging directories, and os.RemoveAll and os.Rename of a subtree
--   Replacement    replace (client/output.go)
--   Scratch        what node.download and fetchFromGateway do around the work in their staging
--                  directory: the sweep, the claim and the deferred release
--   Archives       fetchFromGateway from a response with status 200 on (client/fallback.go)
--   Download       node.download (client/node.go), which puts Dag, Staging and Replacement together
--   Fetching       Client.Get over the files (client/client.go), with Download in its primary phase
--                  and Archives in the loop of fetchFromGateways (client/fallback.go)
--   Dials          dialAll, awaitConnection, how startNode decides on its dials, and redial
--                  (client/node.go), with the goroutines of the dials interleaved
--   Hosting        makeHost, startNode and close (client/node.go) and nodeIdentity
--                  (client/identity.go), as the calls that they make of the resources of a node, and
--                  the goroutines that they start on its context
--   Routers        FindProvidersAsync of parallelDiscovery (client/routing.go), interleaved, and
--                  newDelegatedRouter with its RoundTrip
--   Snapshots      readPeerSnapshot and writePeerSnapshot (client/snapshot.go)
--   Ffi            NewClient, identitySeed, clientConfig and Get (ffi/ffi.go), and GetStringSlice
--                  (utils/convert.go)
--   Peers          the connection gater (client/gater.go), what a snapshot keeps
--                  (client/snapshot.go) and newProviderFinder (client/routing.go)
--
-- Recursion is structural everywhere, on the archive, the DAG, the gateways or the actions; no
-- definition takes fuel. What the clock, the network, the operating system and other goroutines do
-- arrives as an argument: a step of the model says which of them happened.
--
-- Where Get stops waiting for a download, the download goes on: what it has left by then is an input of
-- Fetching, and what it does later is left out.
--
-- Left out: the libp2p host and its options, bitswap, the DHT, HTTP, TLS and the decoding of CIDs,
-- multiaddrs, URLs and tar headers, which are libraries; log lines; the text of an error beside
-- its kind; the client of a delegated router beyond its options; and internal/testpeer, which
-- serves the tests.
pub mod Prelude
pub mod Errors
pub mod Lifecycle
pub mod FilePath
pub mod Storage
pub mod Tar
pub mod Dag
pub mod Locks
pub mod Durations
pub mod Fallback
pub mod Retrieval
pub mod Resolver
pub mod Peers
pub mod Dials
pub mod Snapshots
pub mod Ffi
pub mod Staging
pub mod Scratch
pub mod Download
pub mod Archives
pub mod Replacement
pub mod Hosting
pub mod Routers
pub mod Setup
pub mod Fetching
