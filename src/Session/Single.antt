-- ===== src/Session/Single.antt =====
-- `_probe_and_recover_if_dead` and `_ensure_running_single`: a session of one container.
use astrbot_shipyard_neo.Base.{
  ℕ, Bool, true, false, Option, none, some, ◌&&◌, if◌then◌else◌, is_some,
}
use astrbot_shipyard_neo.Model.{
  Session, SessionStatus, Cargo, Profile, ContainerInfo, ContainerStatus, is_ready,
  is_running_state, is_starting_state, get_primary_container,
}
use astrbot_shipyard_neo.World.Runtime.{Runtime, Error}
use astrbot_shipyard_neo.World.Effect.{
  M, pure, throw, ask, call, raise_if, attempt, ◌>>=◌, ◌>>◌, catch, suppress, write_session,
}
use astrbot_shipyard_neo.Session.Wait.{wait_for_ready}

-- `primary.runtime_port if primary else 8123`
unfoldable pub runtime_port : Profile → ℕ
unfolding get_primary_container
runtime_port profile = elim (get_primary_container profile) [
  | none ↦ 8123
  | some spec ↦ spec.runtime_port
]

abbrev pub is_running_container : ContainerStatus → Bool
is_running_container ContainerStatus.running = true
is_running_container _ = false

-- The row after its container has died, and after a failed start.
abbrev pub reset : Session → SessionStatus → ℕ → Session
reset s state now = record s {
  container_id = none;
  endpoint = none;
  observed_state = state;
  last_observed_at = some now;
}

-- The row that is committed before the containers are created.
abbrev pub starting_of : Session → Session
starting_of s = record s {
  desired_state = SessionStatus.running;
  observed_state = SessionStatus.starting;
}

module _ (rt : Runtime) where
  unfoldable pub recover : Session → ℕ → M rt.Outside Session
  recover s container_id = do
    suppress (call (rt.destroy container_id))
    now ← ask rt.utcnow
    write_session (reset s SessionStatus.pending now)
    pure (reset s SessionStatus.pending now)

  -- What the probe does with the driver's report.
  unfoldable pub heed : Session → ℕ → Option ContainerInfo → M rt.Outside Session
  unfolding recover
  heed s container_id none = pure s
  heed s container_id (some i) =
      if is_running_container i.status then pure s else recover s container_id

  -- A driver that cannot be reached leaves the row trusted. The first argument is
  -- `session.container_id`.
  unfoldable pub probe_container : Option ℕ → Session → Profile → M rt.Outside Session
  unfolding heed
  probe_container none s profile = pure s
  probe_container (some container_id) s profile = do
    info ← attempt (rt.status container_id (some (runtime_port profile)))
    heed s container_id info

  unfoldable pub probe_and_recover_if_dead : Session → Profile → M rt.Outside Session
  unfolding probe_container
  probe_and_recover_if_dead s profile = probe_container s.container_id s profile

  -- `if container_id is not None and observed_state == RUNNING: probe`
  unfoldable pub probe_if_running : Session → Profile → M rt.Outside Session
  probe_if_running s profile =
      if is_some s.container_id && is_running_state s.observed_state
      then probe_and_recover_if_dead s profile
      else pure s

  unfoldable pub create_failed : Session → Error → M rt.Outside ℕ
  create_failed starting e = do
    now ← ask rt.utcnow
    write_session
        (record starting { observed_state = SessionStatus.failed; last_observed_at = some now })
    throw e

  abbrev pub create_or_fail : Session → Cargo → Profile → M rt.Outside ℕ
  create_or_fail s cargo profile = catch (call (rt.create s profile cargo)) (create_failed s)

  abbrev pub store_container : Session → ℕ → M rt.Outside (Session × ℕ)
  store_container s container_id = do
    let created : Session = record s { container_id = some container_id }
    write_session created
    pure (created, container_id)

  -- `if session.container_id is None: ...`, with the container that the session then has.
  unfoldable pub create_container : Session → Cargo → Profile → M rt.Outside (Session × ℕ)
  create_container s cargo profile = do
    write_session (starting_of s)
    container_id ← create_or_fail (starting_of s) cargo profile
    store_container (starting_of s) container_id

  -- The `try` block of the start, and its `except` branch.
  unfoldable pub try_start : Session → ℕ → Profile → M rt.Outside Session
  try_start s container_id profile = do
    endpoint ← call (rt.start container_id (runtime_port profile))
    wait_for_ready rt endpoint s.runtime_type
    now ← ask rt.utcnow
    let started : Session = record s {
      endpoint = some endpoint;
      observed_state = SessionStatus.running;
      last_observed_at = some now;
    }
    write_session started
    pure started

  unfoldable pub start_failed : Session → ℕ → Error → M rt.Outside Session
  start_failed s container_id e = do
    suppress (call (rt.destroy container_id))
    now ← ask rt.utcnow
    write_session (reset s SessionStatus.failed now)
    throw e

  -- `if session.observed_state != RUNNING: ...`
  unfoldable pub start_container : Session → ℕ → Profile → M rt.Outside Session
  start_container s container_id profile =
      catch (try_start s container_id profile) (start_failed s container_id)

  -- The first argument is `session.container_id`.
  abbrev pub with_container : Option ℕ → Session → Cargo → Profile → M rt.Outside (Session × ℕ)
  with_container none s cargo profile = create_container s cargo profile
  with_container (some container_id) s cargo profile = pure (s, container_id)

  abbrev pub start_if_needed : Session × ℕ → Profile → M rt.Outside Session
  start_if_needed (s, container_id) profile =
      if is_running_state s.observed_state then pure s else start_container s container_id profile

  -- What follows the probe.
  unfoldable pub bring_up : Session → Cargo → Profile → M rt.Outside Session
  bring_up s cargo profile = if is_ready s then pure s else (do
    raise_if (is_starting_state s.observed_state) Error.session_not_ready
    created ← with_container s.container_id s cargo profile
    start_if_needed created profile)

  unfoldable pub ensure_running_single : Session → Cargo → Profile → M rt.Outside Session
  unfolding bring_up probe_if_running
  ensure_running_single session cargo profile = do
    probed ← probe_if_running session profile
    bring_up probed cargo profile
