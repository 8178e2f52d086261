-- ===== src/Router/Capability.antt =====
-- The requests of `CapabilityRouter`.
use Prim.Native.String.{String}
use astrbot_shipyard_neo.Base.{ℕ, suc, Bool, true, Option, some, List, [], ◌∷◌, ◌&&◌, not, length}
use astrbot_shipyard_neo.Model.{Sandbox, Session, Settings, contains}
use astrbot_shipyard_neo.World.Runtime.{Runtime, Error, Result, ok, raise}
use astrbot_shipyard_neo.World.Effect.{M, pure, throw, ask, call, raise_if, ◌>>=◌, ◌>>◌}
use astrbot_shipyard_neo.Sandbox.Lifecycle.{ensure_running}
use astrbot_shipyard_neo.Router.AdapterPool.{PoolEntry}
use astrbot_shipyard_neo.Router.Endpoint.{Adapter, get_adapter}

pub record ExecutionResult : Type 0 where
  pub success : Bool
  pub output : String
  pub error : Option String
  pub exit_code : Option ℕ

pub data Request : Type 0 where
  exec_python : (code : String) → (timeout : ℕ) → Request
  exec_shell : (command : String) → (timeout : ℕ) → (cwd : Option String) → Request
  exec_browser : (cmd : String) → (timeout : ℕ) → Request
  exec_browser_batch : (commands : List String) → (timeout : ℕ) → (stop_on_error : Bool) → Request
  read_file list_files delete_file download_file : (path : String) → Request
  write_file : (path : String) → (content : String) → Request
  upload_file : (path : String) → (content : List ℕ) → Request

abbrev pub capability_of : Request → String
capability_of (Request.exec_python code timeout) = "python"
capability_of (Request.exec_shell command timeout cwd) = "shell"
capability_of (Request.exec_browser cmd timeout) = "browser"
capability_of (Request.exec_browser_batch commands timeout stop_on_error) = "browser"
capability_of _ = "filesystem"

pub record BatchStep : Type 0 where
  pub cmd : String
  pub stdout : String
  pub stderr : Option String
  pub exit_code : Option ℕ
  pub step_index : ℕ

pub record BatchResult : Type 0 where
  pub results : List BatchStep
  pub total_steps : ℕ
  pub completed_steps : ℕ
  pub success : Bool

-- `for i, (c, r) in enumerate(zip(commands, results))`
abbrev pub batch_steps : ℕ → List String → List ExecutionResult → List BatchStep
batch_steps i [] results = []
batch_steps i (c ∷ commands) [] = []
batch_steps i (c ∷ commands) (r ∷ results) =
    record { cmd = c; stdout = r.output; stderr = r.error; exit_code = r.exit_code; step_index = i }
    ∷ batch_steps (suc i) commands results

abbrev pub all_succeed : List ExecutionResult → Bool
all_succeed [] = true
all_succeed (r ∷ results) = r.success && all_succeed results

abbrev pub batch_result : List String → List ExecutionResult → BatchResult
batch_result commands results = record {
  results = batch_steps 0 commands results;
  total_steps = length commands;
  completed_steps = length results;
  success = all_succeed results;
}

-- What an adapter answers, or the summary of a batch on the shared browser.
pub data Answer (A : Type 0) : Type 0 where
  answer : A → Answer A
  batch : BatchResult → Answer A

-- The adapters' calls over HTTP. `shared_browser` and `shared_batch` are those of `SharedGullAdapter`,
-- which take the ids of the sandbox and of its cargo.
pub record Adapters (O : Type 0) : Type 1 where
  pub Payload : Type 0
  -- the names of the capabilities of `get_meta`
  pub get_meta : Adapter → O → Result (List String) × O
  pub send : Adapter → Request → O → Result Payload × O
  pub shared_browser : String → ℕ → Option ℕ → ℕ → O → Result Payload × O
  pub shared_batch : List String → ℕ → Option ℕ → ℕ → Bool → O → Result (List ExecutionResult) × O

abbrev pub Pool : Type 0
Pool = List (PoolEntry Adapter)

-- What a request does once it has ended: its result, and the pool that it leaves.
abbrev pub reify : {O A : Type 0} → M O A → M O (Result A)
reify m w = let (r, v) = m w in (ok r, v)

module _ (rt : Runtime) (ad : Adapters rt.Outside) where
  -- `_require_capability`
  unfoldable pub require_capability : Adapter → String → M rt.Outside (Unit {0})
  require_capability adapter capability = do
    capabilities ← call (ad.get_meta adapter)
    raise_if (not (contains capability capabilities)) Error.capability_not_supported

  -- The lines after `_get_adapter`.
  unfoldable pub use_adapter : Request → Result Adapter → M rt.Outside (Answer ad.Payload)
  unfolding require_capability
  use_adapter request (raise e) = throw e
  use_adapter request (ok adapter) = do
    require_capability adapter (capability_of request)
    payload ← call (ad.send adapter request)
    pure (Answer.answer payload)

  unfoldable pub exec_with :
      Settings → ℕ → ℕ → Request → Pool → Session → M rt.Outside (Result (Answer ad.Payload) × Pool)
  unfolding use_adapter get_adapter
  exec_with settings max_size ttl request pool session = do
    now ← ask rt.loop_time
    let (found, left) =
        get_adapter max_size ttl now settings.profiles session (some (capability_of request)) pool
    result ← reify (use_adapter request found)
    pure (result, left)

  -- A request to a container of the sandbox: it raises when there is no session.
  unfoldable pub exec_in_session :
      Settings → ℕ → ℕ → Sandbox → Request → Pool → M rt.Outside (Result (Answer ad.Payload) × Pool)
  unfolding exec_with ensure_running
  exec_in_session settings max_size ttl sandbox request pool =
      ensure_running rt settings sandbox >>= exec_with settings max_size ttl request pool

  -- The browser requests when the shared browser is there: no session is started.
  unfoldable pub exec_shared_browser : Sandbox → String → ℕ → M rt.Outside (Answer ad.Payload)
  exec_shared_browser sandbox cmd timeout = do
    payload ← call (ad.shared_browser cmd sandbox.id sandbox.cargo_id timeout)
    pure (Answer.answer payload)

  unfoldable pub exec_shared_batch :
      Sandbox → List String → ℕ → Bool → M rt.Outside (Answer ad.Payload)
  exec_shared_batch sandbox commands timeout stop_on_error = do
    results ← call (ad.shared_batch commands sandbox.id sandbox.cargo_id timeout stop_on_error)
    pure (Answer.batch (batch_result commands results))

  with_pool : {A : Type 0} → Pool → Result A → M rt.Outside (Result A × Pool)
  with_pool pool result = pure (result, pool)

  -- A public method, by its request; `shared` is whether the browser service is configured.
  unfoldable pub route :
      Bool
      → Settings
      → ℕ
      → ℕ
      → Sandbox
      → Request
      → Pool
      → M rt.Outside (Result (Answer ad.Payload) × Pool)
  unfolding exec_in_session exec_shared_browser exec_shared_batch with_pool
  route true settings max_size ttl sandbox (Request.exec_browser cmd timeout) pool =
      reify (exec_shared_browser sandbox cmd timeout) >>= with_pool pool
  route true settings max_size ttl sandbox (Request.exec_browser_batch commands timeout stop) pool =
      reify (exec_shared_batch sandbox commands timeout stop) >>= with_pool pool
  route shared settings max_size ttl sandbox request pool =
      exec_in_session settings max_size ttl sandbox request pool
