-- ===== src/Session/Multi.antt =====
-- `_probe_and_recover_multi_if_dead` and `_ensure_running_multi`: a session of several containers
-- on a network of its own.
use text.Mathlib.Text.{◌==◌ as str_eq}
use astrbot_shipyard_neo.Base.{
  ℕ, Bool, true, false, Option, none, some, List, [], ◌∷◌, ◌&&◌, ltb, if◌then◌else◌, first, select,
  length,
}
use astrbot_shipyard_neo.Model.{
  Session, SessionStatus, Cargo, Profile, MultiContainerInfo, is_ready, is_running_state,
  is_starting_state, get_primary_container, head?,
}
use astrbot_shipyard_neo.World.Runtime.{Runtime, RuntimeInstance, Error}
use astrbot_shipyard_neo.World.Effect.{
  M, pure, throw, ask, call, attempt, raise_if, or_raise, when, ◌>>=◌, ◌>>◌, catch, suppress,
  write_session,
}
use astrbot_shipyard_neo.Session.Wait.{wait_for_multi_ready}
use astrbot_shipyard_neo.Session.Single.{is_running_container, starting_of}

abbrev pub is_nonempty : List MultiContainerInfo → Bool
is_nonempty [] = false
is_nonempty (c ∷ cs) = true

-- `bool(session.containers)`
abbrev pub has_containers : Session → Bool
has_containers s = elim s.containers [ none ↦ false | some cs ↦ is_nonempty cs ]

abbrev any_live : List RuntimeInstance → Bool
any_live instances = ltb 0 (length (select (λ i. is_running_container i.state) instances))

-- The container that the profile calls primary, or else the first.
unfoldable pub choose_primary : Profile → List MultiContainerInfo → Option MultiContainerInfo
choose_primary profile infos = elim (get_primary_container profile) [
  | none ↦ head? infos
  | some spec ↦ elim (first (λ c. str_eq c.name spec.name) infos) [
    | some c ↦ some c
    | none ↦ head? infos
  ]
]

-- The row after its containers have died, and after a failed start.
abbrev pub reset_multi : Session → SessionStatus → ℕ → Session
reset_multi s state now = record s {
  container_id = none;
  endpoint = none;
  containers = none;
  observed_state = state;
  last_observed_at = some now;
}

module _ (rt : Runtime) where
  -- Dead is a session for which no runtime instance is found running. If the instances cannot be
  -- listed, the row is trusted.
  unfoldable pub probe_and_recover_multi_if_dead : Session → M rt.Outside Session
  probe_and_recover_multi_if_dead s = do
    found ← attempt (rt.session_instances s.id)
    elim found [
      | none ↦ pure s
      | some instances ↦ if any_live instances then pure s else (do
        now ← ask rt.utcnow
        write_session (reset_multi s SessionStatus.pending now)
        pure (reset_multi s SessionStatus.pending now))
    ]

  -- The `except` branch of the start: what was created is destroyed, the network is removed if there
  -- is one, the row is marked failed, and the exception goes on.
  unfoldable pub roll_back :
      {A : Type 0} → Session → Bool → List MultiContainerInfo → Error → M rt.Outside A
  roll_back s network infos e = do
    when (is_nonempty infos) (suppress (call (rt.destroy_multi infos)))
    when network (suppress (call (rt.remove_session_network s.id)))
    now ← ask rt.utcnow
    write_session (reset_multi s SessionStatus.failed now)
    throw e

  -- The `try` block of `_ensure_running_multi`, its steps in order, each with what exists so far.
  unfoldable pub launch : Session → Cargo → Profile → M rt.Outside Session
  launch s cargo profile = do
    network ← catch (call (rt.create_session_network s.id)) (roll_back s false [])
    created ← catch (call (rt.create_multi s profile cargo network)) (roll_back s true [])
    infos ← catch (call (rt.start_multi created)) (roll_back s true created)
    catch (wait_for_multi_ready rt infos) (roll_back s true infos)
    primary ← catch (or_raise (choose_primary profile infos) Error.lookup) (roll_back s true infos)
    now ← ask rt.utcnow
    let started : Session = record s {
      container_id = some primary.container_id;
      endpoint = primary.endpoint;
      containers = some infos;
      observed_state = SessionStatus.running;
      last_observed_at = some now;
    }
    write_session started
    pure started

  unfoldable pub bring_up_multi : Session → Cargo → Profile → M rt.Outside Session
  bring_up_multi s cargo profile = if is_ready s then pure s else (do
    raise_if (is_starting_state s.observed_state) Error.session_not_ready
    elim s.container_id [
      | some container_id ↦ pure s
      | none ↦ do write_session (starting_of s); launch (starting_of s) cargo profile
    ])

  unfoldable pub ensure_running_multi : Session → Cargo → Profile → M rt.Outside Session
  unfolding bring_up_multi
  ensure_running_multi session cargo profile = do
    probed ←
        (if is_running_state session.observed_state && has_containers session
          then probe_and_recover_multi_if_dead session
          else pure session)
    bring_up_multi probed cargo profile
