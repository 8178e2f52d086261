-- ===== src/World/Runtime.antt =====
-- The world outside of Bay: the clock, `uuid4`, the container driver of
-- pkgs/bay/app/drivers/base.py, which Docker or Kubernetes carries out, and the runtimes' HTTP
-- endpoints. Its state is unknown, and every call may change it. A call that raises returns `raise`.
use Prim.Native.String.{String}
use astrbot_shipyard_neo.Base.{ℕ, Bool, Option, List}
use astrbot_shipyard_neo.Model.{
  Session, Cargo, Profile, MultiContainerInfo, ContainerInfo, ContainerStatus,
}

-- The exceptions of pkgs/bay/app/errors.py that the managers raise, with `driver` for whatever the
-- driver raises and `lookup` and `value` for Python's own `IndexError` and `ValueError`. `out_of_fuel` is the model's.
pub data Error : Type 0 where
  not_found validation conflict sandbox_ttl_infinite sandbox_expired session_not_ready : Error
  capability_not_supported driver lookup value overflow out_of_fuel : Error

pub data Result (A : Type 0) : Type 0 where
  ok : A → Result A
  raise : Error → Result A

-- The answer of `GET /health`: no connection, or a status code with the `browser_ready` field of the
-- payload (`none` if the payload does not parse, and true if the field is absent).
pub data Health : Type 0 where
  unreachable : Health
  answered : ℕ → Option Bool → Health

-- A label's value is a number that stands for a text: 0 for the empty one, and 1 for "true".
pub record RuntimeInstance : Type 0 where
  pub id : ℕ
  pub name : List ℕ
  pub labels : List (String × ℕ)
  pub state : ContainerStatus

pub record Runtime : Type 1 where
  pub Outside : Type 0
  pub utcnow : Outside → ℕ × Outside
  pub uuid : Outside → ℕ × Outside
  -- `asyncio.get_event_loop().time()`, in milliseconds, and `asyncio.sleep`
  pub loop_time : Outside → ℕ × Outside
  pub sleep : ℕ → Outside → Outside
  pub health : ℕ → Outside → Health × Outside
  pub create_volume : ℕ → Outside → Result ℕ × Outside
  pub delete_volume : ℕ → Outside → Result (Unit {0}) × Outside
  pub create : Session → Profile → Cargo → Outside → Result ℕ × Outside
  pub start : ℕ → ℕ → Outside → Result ℕ × Outside
  pub stop : ℕ → Outside → Result (Unit {0}) × Outside
  pub destroy : ℕ → Outside → Result (Unit {0}) × Outside
  pub status : ℕ → Option ℕ → Outside → Result ContainerInfo × Outside
  pub create_session_network : ℕ → Outside → Result ℕ × Outside
  pub remove_session_network : ℕ → Outside → Result (Unit {0}) × Outside
  pub create_multi :
      Session → Profile → Cargo → ℕ → Outside → Result (List MultiContainerInfo) × Outside
  pub start_multi : List MultiContainerInfo → Outside → Result (List MultiContainerInfo) × Outside
  pub stop_multi : List MultiContainerInfo → Outside → Result (Unit {0}) × Outside
  pub destroy_multi : List MultiContainerInfo → Outside → Result (Unit {0}) × Outside
  -- `list_runtime_instances`, by the session label and by the cargo label
  pub session_instances : ℕ → Outside → Result (List RuntimeInstance) × Outside
  pub cargo_instances : ℕ → Outside → Result (List RuntimeInstance) × Outside
  -- the instances with `bay.managed` and the given `bay.instance_id`
  pub managed_instances : ℕ → Outside → Result (List RuntimeInstance) × Outside
  pub destroy_runtime_instance : ℕ → Outside → Result (Unit {0}) × Outside
  -- `SharedGullAdapter.destroy_session`
  pub destroy_browser_session : ℕ → Outside → Result (Unit {0}) × Outside
