-- ===== src/Gull/Exec.antt =====
-- Running browser commands: `_run_agent_browser`, `_ensure_browser_ready`, `exec_command`, `exec_batch`
-- and `health`, with `execute_browser`, `execute_browser_raw` and `_run_parts`. The processes, the clock,
-- and random names are the machine's. A timeout is in microseconds. A random name is drawn for every
-- command, also where none is used.
use astrbot_shipyard_neo.Base.{
  ℕ, ◌+◌, ◌-◌, Bool, true, false, not, Option, none, some, List, [], ◌∷◌, ◌++◌, ◌&&◌, ◌==◌, leb,
  if◌then◌else◌, length, ℤ, pos, negsuc,
}
use astrbot_shipyard_neo.Model.{seconds}
use astrbot_shipyard_neo.World.Runtime.{Error, Result, ok, raise}
use astrbot_shipyard_neo.Path.Split.{Text, is_empty}
use astrbot_shipyard_neo.Texts.{codes}
use astrbot_shipyard_neo.Gull.Command.{
  Shlex, normalize_browser_command, Invocation, translate_and_split,
}

-- How a process ends.
pub data Ran : Type 0 where
  finished : (stdout stderr : Text) (returncode : Option ℤ) → Ran
  timed_out not_found : Ran
  failed : Text → Ran

pub record Machine : Type 1 where
  pub Outside : Type 0
  pub spawn : List Text → Option Text → ℕ → Outside → Ran × Outside
  pub perf_counter : Outside → ℕ × Outside
  pub uuid_hex : Outside → Text × Outside
  pub has_agent_browser : Outside → Bool × Outside
  pub check_chromium_health : Outside → Bool × Outside

-- The module's constants, and the text of a timeout in seconds.
pub record Settings : Type 0 where
  pub shared : Bool
  pub session_name : Text
  pub workspace : Text
  pub browser_profile_dir : Text
  pub cdp_port : Text
  pub shlex : Shlex
  pub timeout_text : ℕ → Text

pub record Output : Type 0 where
  pub stdout : Text
  pub stderr : Text
  pub exit_code : ℤ

-- The state of the process: `_browser_ready`, and what is outside.
pub record Process (O : Type 0) : Type 0 where
  pub browser_ready : Bool
  pub outside : O

abbrev pub G : Type 0 → Type 0 → Type 0
G O A = Process O → Result A × Process O

abbrev pub proceed : {O A B : Type 0} → (A → G O B) → Result A × Process O → Result B × Process O
proceed f (ok a, p) = f a p
proceed f (raise e, p) = (raise e, p)

infixl 5 ◌>>=◌ ◌>>◌
abbrev pub ◌>>=◌ : {O A B : Type 0} → G O A → (A → G O B) → G O B
m >>= f = λ p. proceed f (m p)

abbrev pub ◌>>◌ : {O B : Type 0} → G O (Unit {0}) → G O B → G O B
m >> k = m >>= λ _. k

abbrev pub pure : {O A : Type 0} → A → G O A
pure a p = (ok a, p)

abbrev pub ask : {O A : Type 0} → (O → A × O) → G O A
ask f p = let (a, o) = f p.outside in (ok a, record p { outside = o })

-- `shlex.split`, which raises a `ValueError`
abbrev pub split_or_raise : {O : Type 0} → Option (List Text) → G O (List Text)
split_or_raise none p = (raise Error.value, p)
split_or_raise (some parts) p = (ok parts, p)

-- `process.returncode or 0`
abbrev code_or_zero : Option ℤ → ℤ
code_or_zero none = pos 0
code_or_zero (some n) = n

abbrev when_given : Text → Option Text → List Text
when_given flag none = []
when_given flag (some value) = if is_empty value then [] else flag ∷ value ∷ []

abbrev pub is_zero : ℤ → Bool
is_zero (pos n) = n == 0
is_zero (negsuc n) = false

module _ (m : Machine) (c : Settings) where
  -- The results of `_run_agent_browser`.
  abbrev single_output : ℕ → Ran → Output
  single_output timeout (finished stdout stderr returncode) = record {
    stdout = stdout;
    stderr = stderr;
    exit_code = code_or_zero returncode;
  }
  single_output timeout timed_out = record {
    stdout = [];
    stderr = c.timeout_text timeout;
    exit_code = negsuc 0;
  }
  single_output timeout not_found = record {
    stdout = [];
    stderr = codes "agent-browser not found. Is it installed?";
    exit_code = negsuc 0;
  }
  single_output timeout (failed message) = record {
    stdout = [];
    stderr = codes "Failed to execute command: " ++ message;
    exit_code = negsuc 0;
  }

  unfoldable pub run_agent_browser : Text → ℕ → Option Text → Option Text → G m.Outside Output
  unfolding normalize_browser_command
  run_agent_browser cmd timeout session profile = do
    hex ← ask m.uuid_hex
    parts ← split_or_raise (c.shlex.split (normalize_browser_command c.shlex c.workspace hex cmd))
    ran ← ask (
        m.spawn
          (codes "agent-browser"
            ∷ (when_given (codes "--session") session
                ++ (when_given (codes "--profile") profile ++ parts)))
          (some c.workspace) timeout)
    pure (single_output timeout ran)

  -- The results of `_run_parts`.
  abbrev shared_output : Ran → Output
  shared_output (finished stdout stderr returncode) = record {
    stdout = stdout;
    stderr = stderr;
    exit_code = code_or_zero returncode;
  }
  shared_output timed_out = record {
    stdout = [];
    stderr = codes "Command timed out";
    exit_code = pos 124;
  }
  shared_output not_found = record {
    stdout = [];
    stderr = codes "agent-browser binary not found";
    exit_code = pos 127;
  }
  shared_output (failed message) = record { stdout = []; stderr = message; exit_code = pos 1 }

  unfoldable pub run_parts : List Text → ℕ → Option Text → G m.Outside Output
  run_parts parts timeout cwd = do ran ← ask (m.spawn parts cwd timeout); pure (shared_output ran)

  abbrev shared_prefix : Text → List Text
  shared_prefix sandbox_id =
      codes "agent-browser" ∷ codes "--cdp" ∷ c.cdp_port ∷ codes "--session" ∷ sandbox_id ∷ []

  unfoldable pub execute_browser : Text → Text → ℕ → G m.Outside Output
  unfolding run_parts
  execute_browser sandbox_id cmd timeout = do
    parts ← split_or_raise (c.shlex.split cmd)
    run_parts (shared_prefix sandbox_id ++ parts) timeout none

  unfoldable pub execute_browser_raw : Text → Invocation → ℕ → G m.Outside Output
  unfolding run_parts
  execute_browser_raw sandbox_id v timeout =
      run_parts
        (shared_prefix sandbox_id ++ (when_given (codes "--profile") (some v.profile) ++ v.argv))
        timeout (some v.cwd)

  abbrev set_ready : G m.Outside (Unit {0})
  set_ready p = (ok tt, record p { browser_ready = true })

  abbrev is_ready : G m.Outside Bool
  is_ready p = (ok p.browser_ready, p)

  abbrev ready_on_success : Output → G m.Outside (Unit {0})
  ready_on_success o = if is_zero o.exit_code then set_ready else pure tt

  abbrev pre_warm : G m.Outside (Unit {0})
  pre_warm = do
    warmed ←
        run_agent_browser (codes "open about:blank") (seconds 30) (some c.session_name)
          (some c.browser_profile_dir)
    ready_on_success warmed

  abbrev probe : G m.Outside (Unit {0})
  probe = do
    probed ← run_agent_browser (codes "session list") (seconds 5) none none
    if is_zero probed.exit_code then set_ready else pre_warm

  unfoldable pub ensure_browser_ready : G m.Outside (Unit {0})
  unfolding run_agent_browser
  ensure_browser_ready = do ready ← is_ready; if ready then pure tt else probe

  -- `None if _browser_ready else BROWSER_PROFILE_DIR`
  abbrev profile_if_cold : Bool → Option Text
  profile_if_cold true = none
  profile_if_cold false = some c.browser_profile_dir

  abbrev run_single : Text → ℕ → G m.Outside Output
  run_single cmd timeout = do
    ready ← is_ready
    run_agent_browser cmd timeout (some c.session_name) (profile_if_cold ready)

  abbrev run_shared : Text → Option Text → Text → ℕ → G m.Outside Output
  run_shared sandbox_id none cmd timeout = execute_browser sandbox_id cmd timeout
  run_shared sandbox_id (some cargo_id) cmd timeout =
      if is_empty cargo_id
      then execute_browser sandbox_id cmd timeout
      else (ask m.uuid_hex >>= λ hex.
          execute_browser_raw sandbox_id (translate_and_split c.shlex c.workspace hex cmd cargo_id)
            timeout)

  -- A sandbox's id that counts: in shared mode, and not empty.
  abbrev pub shared_id : Option Text → Option Text
  shared_id none = none
  shared_id (some sandbox_id) =
      if c.shared && not (is_empty sandbox_id) then some sandbox_id else none

  abbrev exec_in : Option Text → Option Text → Text → ℕ → G m.Outside Output
  exec_in none cargo_id cmd timeout = ensure_browser_ready >> run_single cmd timeout
  exec_in (some sandbox_id) cargo_id cmd timeout = run_shared sandbox_id cargo_id cmd timeout

  -- `exec_command`, with the fields of the request
  unfoldable pub exec_command : Option Text → Option Text → Text → ℕ → G m.Outside Output
  unfolding ensure_browser_ready execute_browser execute_browser_raw translate_and_split
  exec_command sandbox_id cargo_id cmd timeout =
      exec_in (shared_id sandbox_id) cargo_id cmd (seconds timeout)

  abbrev step_in : Option Text → Option Text → Text → ℕ → G m.Outside Output
  step_in none cargo_id cmd timeout = run_single cmd timeout
  step_in (some sandbox_id) cargo_id cmd timeout = run_shared sandbox_id cargo_id cmd timeout

  -- One command of a batch.
  unfoldable pub batch_step : Option Text → Option Text → Text → ℕ → G m.Outside Output
  unfolding run_agent_browser execute_browser execute_browser_raw translate_and_split
  batch_step sandbox_id cargo_id cmd timeout = step_in (shared_id sandbox_id) cargo_id cmd timeout

pub record BatchStepResult : Type 0 where
  pub cmd : Text
  pub output : Output
  pub step_index : ℕ
  pub duration : ℕ

pub record BatchExecRequest : Type 0 where
  pub commands : List Text
  pub timeout : ℕ
  pub stop_on_error : Bool
  pub sandbox_id : Option Text
  pub cargo_id : Option Text

pub record BatchExecResponse : Type 0 where
  pub results : List BatchStepResult
  pub total_steps : ℕ
  pub completed_steps : ℕ
  pub success : Bool
  pub duration : ℕ

abbrev pub all_zero : List BatchStepResult → Bool
all_zero [] = true
all_zero (r ∷ rs) = is_zero r.output.exit_code && all_zero rs

abbrev pub ends_batch : Bool → Output → Bool
ends_batch stop_on_error o = stop_on_error && not (is_zero o.exit_code)

module _ (m : Machine) (c : Settings) (request : BatchExecRequest) (batch_start : ℕ) where
  abbrev pub result_of : ℕ → Text → ℕ → Output → ℕ → BatchStepResult
  result_of i cmd step_start o step_end = record {
    cmd = cmd;
    output = o;
    step_index = i;
    duration = step_end - step_start;
  }

  -- One round of the loop, given what follows it.
  abbrev pub batch_round :
      ℕ → Text → ℕ → G m.Outside (List BatchStepResult) → G m.Outside (List BatchStepResult)
  batch_round i cmd remaining rest = do
    step_start ← ask m.perf_counter
    o ← batch_step m c request.sandbox_id request.cargo_id cmd remaining
    step_end ← ask m.perf_counter
    (if ends_batch request.stop_on_error o
        then pure (result_of i cmd step_start o step_end ∷ [])
        else (rest >>= λ rs. pure (result_of i cmd step_start o step_end ∷ rs)))

  -- The loop over the commands from index `i` on.
  unfoldable pub batch_loop : ℕ → List Text → G m.Outside (List BatchStepResult)
  batch_loop i [] = pure []
  batch_loop i (cmd ∷ cmds) = do
    time ← ask m.perf_counter
    let rest = batch_loop (i + 1) cmds
    (if leb (seconds request.timeout) (time - batch_start)
        then pure []
        else batch_round i cmd (seconds request.timeout - (time - batch_start)) rest)

module _ (m : Machine) (c : Settings) where
  unfoldable pub exec_batch : BatchExecRequest → G m.Outside BatchExecResponse
  unfolding batch_loop batch_step
  exec_batch request = do
    batch_start ← ask m.perf_counter
    results ← batch_loop m c request batch_start 0 request.commands
    batch_end ← ask m.perf_counter
    pure (record {
      results = results;
      total_steps = length request.commands;
      completed_steps = length results;
      success = (length results == length request.commands) && all_zero results;
      duration = batch_end - batch_start;
    })
