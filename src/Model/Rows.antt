-- ===== src/Model/Rows.antt =====
-- The tables' rows, and the values that they hold (pkgs/bay/app/models, pkgs/bay/app/drivers/base.py).
use Prim.Native.String.{String}
use text.Mathlib.Text.{◌==◌ as str_eq}
use astrbot_shipyard_neo.Base.{
  ℕ, ◌*◌, Bool, true, false, Option, none, some, List, [], ◌∷◌, ◌||◌, ◌&&◌, ltb, if◌then◌else◌,
  is_some, length, first,
}

pub data SandboxStatus : Type 0 where
  idle starting ready failed expired deleted : SandboxStatus

pub data WarmState : Type 0 where
  available claimed retiring : WarmState

pub data SessionStatus : Type 0 where
  pending starting running degraded stopping stopped failed : SessionStatus

pub data ContainerStatus : Type 0 where
  created running exited removing not_found : ContainerStatus

-- `timedelta(seconds=n)`, in microseconds.
abbrev pub seconds : ℕ → ℕ
seconds n = n * 1000000

-- `datetime.max`, in microseconds since `datetime.min`
abbrev pub last_moment : ℕ
last_moment = 315537897599999999

pub record Sandbox : Type 0 where
  pub id : ℕ
  pub owner : ℕ
  pub profile_id : ℕ
  pub cargo_id : Option ℕ
  pub current_session_id : Option ℕ
  pub expires_at : Option ℕ
  pub idle_expires_at : Option ℕ
  pub deleted_at : Option ℕ
  pub version : ℕ
  pub created_at : ℕ
  pub last_active_at : ℕ
  pub is_warm_pool : Bool
  pub warm_state : Option WarmState
  pub warm_ready_at : Option ℕ
  pub warm_rotate_at : Option ℕ
  pub warm_claimed_at : Option ℕ
  pub warm_source_profile_id : Option ℕ

-- One container of a session, as the driver reports it and as `to_dict` stores it in the session.
pub record MultiContainerInfo : Type 0 where
  pub name : String
  pub container_id : ℕ
  pub endpoint : Option ℕ
  pub status : ContainerStatus
  pub runtime_type : String
  pub capabilities : List String

pub record ContainerInfo : Type 0 where
  pub container_id : ℕ
  pub status : ContainerStatus
  pub endpoint : Option ℕ
  pub exit_code : Option ℕ

pub record Session : Type 0 where
  pub id : ℕ
  pub sandbox_id : ℕ
  pub runtime_type : String
  pub profile_id : ℕ
  pub container_id : Option ℕ
  pub endpoint : Option ℕ
  pub containers : Option (List MultiContainerInfo)
  pub desired_state : SessionStatus
  pub observed_state : SessionStatus
  pub last_observed_at : Option ℕ
  pub created_at : ℕ
  pub last_active_at : ℕ

pub record Cargo : Type 0 where
  pub id : ℕ
  pub owner : ℕ
  pub driver_ref : ℕ
  pub managed : Bool
  pub managed_by_sandbox_id : Option ℕ
  pub size_limit_mb : ℕ
  pub created_at : ℕ
  pub last_accessed_at : ℕ

-- Tests of an enum value.
abbrev pub is_running_state : SessionStatus → Bool
is_running_state SessionStatus.running = true
is_running_state _ = false

abbrev pub is_starting_state : SessionStatus → Bool
is_starting_state SessionStatus.starting = true
is_starting_state _ = false

abbrev pub is_available : Option WarmState → Bool
is_available (some WarmState.available) = true
is_available _ = false

-- `capability in capabilities`
abbrev pub contains : String → List String → Bool
contains s [] = false
contains s (x ∷ xs) = str_eq s x || contains s xs

-- `Session.is_ready`
abbrev pub is_ready : Session → Bool
is_ready s = is_running_state s.observed_state && is_some s.endpoint

-- `Session.is_running`
abbrev pub is_running : Session → Bool
is_running s = is_starting_state s.observed_state || is_running_state s.observed_state

-- `Session.is_multi_container`
abbrev pub is_multi_container : Session → Bool
is_multi_container s = elim s.containers [ none ↦ false | some cs ↦ ltb 1 (length cs) ]

-- `Session.get_container_for_capability`
unfoldable pub get_container_for_capability : Session → String → Option MultiContainerInfo
get_container_for_capability s capability = elim s.containers [
  | none ↦ none
  | some cs ↦ first (λ c. contains capability c.capabilities) cs
]

-- `Session.get_container_endpoint`
find_endpoint : String → List MultiContainerInfo → Option ℕ
find_endpoint name [] = none
find_endpoint name (c ∷ cs) = if str_eq c.name name then c.endpoint else find_endpoint name cs

unfoldable pub get_container_endpoint : Session → String → Option ℕ
unfolding find_endpoint
get_container_endpoint s name = elim s.containers [ none ↦ none | some cs ↦ find_endpoint name cs ]
