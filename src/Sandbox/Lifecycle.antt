-- ===== src/Sandbox/Lifecycle.antt =====
-- `ensure_running`, `stop`, `delete` and `delete_by_id`. Each takes the caller's copy of the sandbox,
-- and reads the row again once it holds the sandbox's lock.
use astrbot_shipyard_neo.Base.{
  ℕ, ◌+◌, Bool, true, false, Option, none, some, List, ◌==◌, ◌&&◌, if◌then◌else◌, is_some, first,
  select,
}
use astrbot_shipyard_neo.Model.{Sandbox, Session, Cargo, Profile, Settings, get_profile, seconds}
use astrbot_shipyard_neo.World.Runtime.{Runtime, Error}
use astrbot_shipyard_neo.World.Effect.{
  M, pure, throw, gets, ask, call, or_raise, when, ◌>>=◌, ◌>>◌, suppress, for_each,
  get_sandbox_lock, cleanup_sandbox_lock, write_sandbox,
}
use astrbot_shipyard_neo.Cargo
use astrbot_shipyard_neo.Session.Manager.{
  create_session, ensure_running_session, stop_session, destroy_session,
}
use astrbot_shipyard_neo.Sandbox.Create.{get_any}

-- `self._cargo_mgr.get_by_id(cargo_id)`: no row has the id `None`.
abbrev pub find_cargo : Option ℕ → List Cargo → Option Cargo
find_cargo none cargos = none
find_cargo (some k) cargos = first (λ c. c.id == k) cargos

abbrev pub find_session : Option ℕ → List Session → Option Session
find_session none sessions = none
find_session (some k) sessions = first (λ s. s.id == k) sessions

-- `sandbox is None or sandbox.deleted_at is not None`
abbrev pub is_gone : Option Sandbox → Bool
is_gone none = true
is_gone (some s) = is_some s.deleted_at

module _ (rt : Runtime) where
  -- The row, which the lock now protects.
  abbrev pub locked_row : ℕ → M rt.Outside (Option Sandbox)
  locked_row sandbox_id = do
    get_sandbox_lock sandbox_id
    gets (λ w. first (λ s. s.id == sandbox_id) w.sandboxes)

  abbrev pub sessions_of : ℕ → M rt.Outside (List Session)
  sessions_of sandbox_id = gets (λ w. select (λ s. s.sandbox_id == sandbox_id) w.sessions)

  -- The current session, or a new one that becomes it.
  unfoldable pub current_or_new : Sandbox → Profile → Option Session → M rt.Outside Session
  current_or_new locked profile (some session) = pure session
  current_or_new locked profile none = do
    session ← create_session rt locked.id profile
    write_sandbox locked.id (λ s. record s { current_session_id = some session.id })
    pure session

  unfoldable pub ensure_running : Settings → Sandbox → M rt.Outside Session
  unfolding get_sandbox_lock current_or_new
  ensure_running settings sandbox = do
    profile ← or_raise (get_profile settings.profiles sandbox.profile_id) Error.validation
    found ← locked_row sandbox.id
    locked ← or_raise found Error.not_found
    found_cargo ← gets (λ w. find_cargo sandbox.cargo_id w.cargos)
    cargo ← or_raise found_cargo Error.not_found
    current ← gets (λ w. find_session locked.current_session_id w.sessions)
    session ← current_or_new locked profile current
    running ← ensure_running_session rt session cargo profile
    start ← ask rt.utcnow
    now ← ask rt.utcnow
    write_sandbox locked.id (λ s. record s {
      idle_expires_at = some (start + seconds profile.idle_timeout);
      last_active_at = now;
    })
    pure running

  unfoldable pub stop_live : ℕ → M rt.Outside (Unit {0})
  stop_live sandbox_id = do
    sessions ← sessions_of sandbox_id
    for_each sessions (stop_session rt)
    write_sandbox sandbox_id (λ s. record s { current_session_id = none; idle_expires_at = none })

  unfoldable pub stop_sandbox : Sandbox → M rt.Outside (Unit {0})
  unfolding stop_live get_sandbox_lock
  stop_sandbox sandbox = do
    found ← locked_row sandbox.id
    (if is_gone found then pure tt else stop_live sandbox.id)

  -- The cascade: a managed cargo goes with its sandbox.
  unfoldable pub delete_managed : Option Cargo → ℕ → M rt.Outside (Unit {0})
  delete_managed none owner = pure tt
  delete_managed (some c) owner = when c.managed (Cargo.delete_cargo rt c.id owner true)

  -- The locked section of `delete`, for a sandbox that is still there.
  unfoldable pub delete_live : Sandbox → M rt.Outside (Unit {0})
  unfolding delete_managed
  delete_live sandbox = do
    sessions ← sessions_of sandbox.id
    for_each sessions (destroy_session rt)
    cargo ← gets (λ w. find_cargo sandbox.cargo_id w.cargos)
    now ← ask rt.utcnow
    write_sandbox sandbox.id (λ s. record s { deleted_at = some now; current_session_id = none })
    delete_managed cargo sandbox.owner

  -- `profile is not None and profile.browser == "shared"`, with the shared service enabled
  abbrev pub shares : Settings → ℕ → Bool
  shares settings profile_id = elim (get_profile settings.profiles profile_id) [
    | none ↦ false
    | some p ↦ p.shares_browser && settings.browser_service_enabled
  ]

  -- Outside of the locked section.
  unfoldable pub after_delete : Settings → Sandbox → M rt.Outside (Unit {0})
  unfolding cleanup_sandbox_lock
  after_delete settings sandbox = do
    cleanup_sandbox_lock sandbox.id
    when (shares settings sandbox.profile_id)
        (suppress (call (rt.destroy_browser_session sandbox.id)))

  unfoldable pub delete_sandbox : Settings → Sandbox → M rt.Outside (Unit {0})
  unfolding delete_live get_sandbox_lock after_delete
  delete_sandbox settings sandbox = do
    found ← locked_row sandbox.id
    (if is_gone found then pure tt else (delete_live sandbox >> after_delete settings sandbox))

  unfoldable pub delete_by_id : Settings → ℕ → ℕ → Bool → M rt.Outside (Unit {0})
  unfolding delete_sandbox
  delete_by_id settings sandbox_id owner idempotent = do
    sandbox ← get_any rt sandbox_id owner
    (if is_some sandbox.deleted_at
        then (if idempotent then pure tt else throw Error.not_found)
        else delete_sandbox settings sandbox)
