-- ===== src/Router/Endpoint.antt =====
-- `CapabilityRouter._get_adapter`: which endpoint a capability is asked of, and by which adapter.
use Prim.Native.String.{String}
use text.Mathlib.Text.{◌==◌ as str_eq}
use astrbot_shipyard_neo.Base.{ℕ, Option, none, some, List, [], if◌then◌else◌, first}
use astrbot_shipyard_neo.Model.{
  Session, MultiContainerInfo, Profile, ContainerSpec, get_profile, find_container_for_capability,
  is_multi_container, get_container_for_capability,
}
use astrbot_shipyard_neo.World.Runtime.{Error, Result, ok, raise}
use astrbot_shipyard_neo.Router.AdapterPool.{PoolKey, PoolEntry, get_or_create}

-- `ShipAdapter(endpoint)` and `GullAdapter(endpoint)`
pub data Adapter : Type 0 where
  ship gull : ℕ → Adapter

-- `factory`
abbrev pub make_adapter : PoolKey → Result Adapter
make_adapter k =
    if str_eq k.runtime_type "ship"
    then ok (Adapter.ship k.endpoint)
    else if str_eq k.runtime_type "gull"
    then ok (Adapter.gull k.endpoint)
    else raise Error.value

abbrev pub spec_name : Option ContainerSpec → Option String
spec_name none = none
spec_name (some spec) = some spec.name

-- The name of the profile's container for the capability.
unfoldable pub target_name : Option Profile → String → Option String
unfolding find_container_for_capability
target_name none capability = none
target_name (some profile) capability = spec_name (find_container_for_capability profile capability)

abbrev pub containers_of : Session → List MultiContainerInfo
containers_of s = elim s.containers [ none ↦ [] | some cs ↦ cs ]

abbrev pub find_named : Option String → List MultiContainerInfo → Option MultiContainerInfo
find_named none cs = none
find_named (some name) cs = first (λ c. str_eq c.name name) cs

abbrev pub or_else {ℓ} : {A : Type ℓ} → Option A → Option A → Option A
or_else (some a) o = some a
or_else none o = o

-- The container that the capability is routed to.
unfoldable pub container_for : List Profile → Session → String → Option MultiContainerInfo
unfolding target_name get_profile get_container_for_capability
container_for profiles s capability =
    or_else
      (find_named (target_name (get_profile profiles s.profile_id) capability) (containers_of s))
      (get_container_for_capability s capability)

-- The endpoint, or the session's, with the runtime type.
abbrev pub keyed : Option ℕ → Option ℕ → String → Result PoolKey
keyed none none runtime_type = raise Error.session_not_ready
keyed none (some e) runtime_type = ok (record { endpoint = e; runtime_type = runtime_type })
keyed (some e) fallback runtime_type = ok (record { endpoint = e; runtime_type = runtime_type })

abbrev pub key_of : Session → Option MultiContainerInfo → Result PoolKey
key_of s none = raise Error.capability_not_supported
key_of s (some c) = keyed c.endpoint s.endpoint c.runtime_type

-- The lines up to the pool. `profiles` is empty when the settings cannot be read.
unfoldable pub resolve : List Profile → Session → Option String → Result PoolKey
unfolding container_for
resolve profiles s none = keyed none s.endpoint s.runtime_type
resolve profiles s (some capability) =
    if is_multi_container s
    then key_of s (container_for profiles s capability)
    else keyed none s.endpoint s.runtime_type

-- The pool is used within one step of the event loop.
abbrev pub adapter_from :
    ℕ
    → ℕ
    → ℕ
    → List (PoolEntry Adapter)
    → Result PoolKey
    → Result Adapter × List (PoolEntry Adapter)
adapter_from max_size ttl now pool (ok k) =
    get_or_create max_size ttl now (λ entries. entries) k (make_adapter k) pool
adapter_from max_size ttl now pool (raise e) = (raise e, pool)

unfoldable pub get_adapter :
    ℕ
    → ℕ
    → ℕ
    → List Profile
    → Session
    → Option String
    → List (PoolEntry Adapter)
    → Result Adapter × List (PoolEntry Adapter)
unfolding resolve get_or_create
get_adapter max_size ttl now profiles s capability pool =
    adapter_from max_size ttl now pool (resolve profiles s capability)
