-- ===== src/Routers/Delegated.antt =====
-- client/routing.go: `newDelegatedRouter` and the transport that it puts below boxo's client. boxo's
-- `New` and `NewContentRoutingClient` and the transport below are parameters.
use ipfs_mobile.Prelude.{ℕ, ◌^◌, ◌≡◌, Option, none, some, List, [], ◌∷◌}
use ipfs_mobile.Prelude.Tests.{if◌then◌else◌}
use ipfs_mobile.Prelude.Text.{Text, text_eq, codes}
use ipfs_mobile.Prelude.Dict.{Dict, lookup, insert, lookup-insert}
use ipfs_mobile.Errors.{Result, ok, err, wrapped}

-- An `http.Request`, with one value for each header.
pub record Request : Type 0 where
  pub url : Text
  pub headers : Dict Text

abbrev pub json_type : Text
json_type = codes "application/json"

abbrev pub asking_json : Request → Request
asking_json r = record r { headers = insert (codes "Accept") json_type r.headers }

-- `jsonOnlyTransport.RoundTrip`, which sends a clone: `http.DefaultTransport` is the transport where
-- `inner` is nil.
unfoldable pub round_trip {ℓ} : {A : Type ℓ} → (Request → A) → Option (Request → A) → Request → A
round_trip default_transport none r = default_transport (asking_json r)
round_trip default_transport (some inner) r = inner (asking_json r)

-- What the options of the delegated router set; `Reply` is what a transport returns.
pub record Options {ℓ} (Reply : Type ℓ) : Type ℓ where
  pub transport : Request → Reply
  pub response_limit : ℕ
  pub user_agent : Text
  pub protocols : List Text

abbrev pub delegated_options {ℓ} : {Reply : Type ℓ} → (Request → Reply) → Options Reply
delegated_options default_transport = record {
  transport = round_trip default_transport none;
  response_limit = 2 ^ 20;
  user_agent = codes "ipfs-mobile";
  protocols =
      codes "unknown" ∷ codes "transport-bitswap" ∷ codes "transport-ipfs-gateway-http" ∷ [];
}

abbrev pub routed {ℓ} : {C R : Type ℓ} → (C → R) → Result C → Result R
routed content_routing (err e) = err (wrapped (codes "delegated routing endpoint") e)
routed content_routing (ok made) = ok (content_routing made)

-- `newDelegatedRouter`.
unfoldable pub new_delegated_router {ℓ κ} :
    {Reply : Type ℓ} {C R : Type κ}
    → (Request → Reply)
    → (Text → Options Reply → Result C)
    → (C → R)
    → Text
    → Result R
unfolding round_trip
new_delegated_router default_transport make content_routing endpoint =
    routed content_routing (make endpoint (delegated_options default_transport))

-- A request of the delegated router asks for JSON alone, whatever boxo asks for, and has its other
-- headers as they were.
pub round_trip-lookup :
    (r : Request) (name : Text)
    → lookup name (round_trip (λ sent. sent.headers) none r)
      ≡ (if text_eq (codes "Accept") name then some json_type else lookup name r.headers)
unfolding round_trip
round_trip-lookup r name = lookup-insert (codes "Accept") name json_type r.headers
