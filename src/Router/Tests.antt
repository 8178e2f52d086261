-- ===== src/Router/Tests.antt =====
-- Concrete requests, and a pool of one entry.
use astrbot_shipyard_neo.Base.{
  ℕ, ◌+◌, ◌≡◌, refl, arith, Option, none, some, List, [], ◌∷◌, inl, inr, ◌⊎◌, false,
}
use Prim.Native.String.{String}
use astrbot_shipyard_neo.Model.{Session, MultiContainerInfo, ContainerStatus}
use astrbot_shipyard_neo.World.Runtime.{ok, Result}
use astrbot_shipyard_neo.World.Sample.{calm, box, start, idle_session, settings}
use astrbot_shipyard_neo.Router.AdapterPool.{PoolKey, PoolEntry, get_entry, get_or_create}
use astrbot_shipyard_neo.Router.Bounds.{IsPool}
use astrbot_shipyard_neo.Router.Refines.{IsStep, get_or_create-refines}
use astrbot_shipyard_neo.Router.Endpoint.{Adapter, resolve, get_adapter}
use astrbot_shipyard_neo.Router.Chosen.{IsFaithful, uncached, get_adapter-uncached}
use astrbot_shipyard_neo.Router.Routed.{
  IsChosen, IsEndpointOf, resolve_multi, declares, exec_in_session_unsent,
}
use astrbot_shipyard_neo.Router.Capability.{Request, Adapters, exec_in_session}

abbrev ship_key : PoolKey
ship_key = record { endpoint = 40; runtime_type = "ship" }

abbrev gull_key : PoolKey
gull_key = record { endpoint = 41; runtime_type = "gull" }

abbrev one_entry : List (PoolEntry Adapter)
one_entry = record { key = ship_key; value = Adapter.ship 40; expires_at = 50 } ∷ []

one_entry-IsPool : IsPool 1 one_entry
one_entry-IsPool = (λ j. ground arith, omega arith)

get_or_create-refines_example :
    IsStep 300 60 gull_key
      (ok (Adapter.gull 41))
      (λ j. get_entry j one_entry)
      (λ j. get_entry j one_entry)
      (get_or_create 1 300 60 (λ xs. xs) gull_key (ok (Adapter.gull 41)) one_entry)
get_or_create-refines_example =
    get_or_create-refines 1 300 60 (λ xs. xs) gull_key (ok (Adapter.gull 41))
      (λ j. get_entry j one_entry) (λ j. get_entry j one_entry) one_entry (λ xs once h. (once, h))
      one_entry-IsPool.0 (λ j. inl refl)

made :
    (get_or_create 1 300 60 (λ xs. xs) gull_key (ok (Adapter.gull 41)) one_entry).0
    ≡ ok (Adapter.gull 41)
unfolding get_or_create
made = refl

-- A session of a Ship container and a Gull container without an endpoint.
abbrev container : String → String → Option ℕ → String → MultiContainerInfo
container name kind endpoint capability = record {
  name = name;
  container_id = 60;
  endpoint = endpoint;
  status = ContainerStatus.running;
  runtime_type = kind;
  capabilities = capability ∷ [];
}

abbrev pair : Session
pair = record idle_session {
  endpoint = some 40;
  containers =
      some (
        container "ship" "ship" (some 40) "python"
        ∷ container "browser" "gull" none "browser"
        ∷ []);
}

get_adapter-uncached_example :
    ((get_adapter 1 300 10 [] pair (some "python") one_entry).0 ≡ uncached [] pair (some "python"))
    × IsFaithful (get_adapter 1 300 10 [] pair (some "python") one_entry).1
get_adapter-uncached_example =
    get_adapter-uncached 1 300 10 [] pair (some "python") one_entry (refl, tt)

-- The Gull adapter gets the endpoint of the Ship container.
browser_key :
    resolve [] pair (some "browser") ≡ ok (record { endpoint = 40; runtime_type = "gull" })
unfolding resolve
browser_key = refl

resolve_multi_example :
    (c : MultiContainerInfo) × IsChosen [] pair "browser" c
    × IsEndpointOf pair c (record { endpoint = 40; runtime_type = "gull" })
resolve_multi_example = resolve_multi [] pair "browser" refl browser_key

-- Ship declares `filesystem`, and Gull does not.
abbrev declared : Adapter → List String
declared (Adapter.ship e) = "filesystem" ∷ []
declared (Adapter.gull e) = "browser" ∷ []

abbrev runtimes : Adapters ℕ
runtimes = record {
  Payload = ℕ;
  get_meta = λ a o. (ok (declared a), o);
  send = λ a r o. (ok 1, o + 1);
  shared_browser = λ c s k t o. (ok 1, o);
  shared_batch = λ cs s k t b o. (ok [], o);
}

-- Only Gull answers otherwise.
abbrev send_otherwise : Adapter → Request → ℕ → Result ℕ × ℕ
send_otherwise (Adapter.ship e) r o = (ok 1, o + 1)
send_otherwise (Adapter.gull e) r o = (ok 2, o + 2)

agree :
    (a : Adapter)
    → ((o : ℕ) → declares "filesystem" (runtimes.get_meta a o).0 ≡ false)
      ⊎ ((o : ℕ)
          → send_otherwise a (Request.read_file "notes") o
            ≡ runtimes.send a (Request.read_file "notes") o)
agree (Adapter.ship e) = inr (λ o. refl)
agree (Adapter.gull e) = inl (λ o. refl)

exec_in_session_unsent_example :
    exec_in_session calm
      (record runtimes { send = send_otherwise })
      settings
      1
      300
      box
      (Request.read_file "notes")
      []
      start
    ≡ exec_in_session calm runtimes settings 1 300 box (Request.read_file "notes") [] start
exec_in_session_unsent_example =
    exec_in_session_unsent calm runtimes send_otherwise (Request.read_file "notes") agree settings 1
      300 box [] start
