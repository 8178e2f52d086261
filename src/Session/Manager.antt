-- ===== src/Session/Manager.antt =====
-- The operations of `SessionManager` that the other managers call.
use astrbot_shipyard_neo.Base.{
  ℕ, Option, none, some, List, [], ◌∷◌, ◌&&◌, ◌==◌, ltb, if◌then◌else◌, is_some, first, update,
  delete, length, map,
}
use astrbot_shipyard_neo.Model.{
  Session, SessionStatus, Cargo, Profile, MultiContainerInfo, ContainerInfo, ContainerStatus,
  is_multi_container, get_primary_container, get_profile,
}
use astrbot_shipyard_neo.World.Runtime.{Runtime}
use astrbot_shipyard_neo.World.Effect.{
  M, pure, gets, modify, ask, call, when, ◌>>=◌, ◌>>◌, suppress, write_session,
}
use astrbot_shipyard_neo.Session.Single.{ensure_running_single}
use astrbot_shipyard_neo.Session.Multi.{ensure_running_multi, has_containers}

-- The containers of the row as `stop` and `destroy` hand them to the driver.
abbrev pub rebuild : MultiContainerInfo → MultiContainerInfo
rebuild c = record c { endpoint = none; status = ContainerStatus.created }

abbrev pub infos_of : Session → List MultiContainerInfo
infos_of s = elim s.containers [ none ↦ [] | some cs ↦ map rebuild cs ]

-- The row that is committed before the runtime is stopped.
abbrev pub stopping_of : Session → Session
stopping_of s = record s {
  desired_state = SessionStatus.stopped;
  observed_state = SessionStatus.stopping;
}

-- What the driver's report makes of the row.
unfoldable pub observe : Session → ContainerInfo → ℕ → Session
observe s info now = elim info.status [
  | ContainerStatus.running ↦ record s {
    endpoint = info.endpoint;
    observed_state = SessionStatus.running;
    last_observed_at = some now;
  }
  | ContainerStatus.created ↦ record s {
    observed_state = SessionStatus.pending;
    last_observed_at = some now;
  }
  | ContainerStatus.exited ↦ record s {
    observed_state = SessionStatus.stopped;
    last_observed_at = some now;
  }
  | ContainerStatus.not_found ↦ record s {
    container_id = none;
    observed_state = SessionStatus.stopped;
    last_observed_at = some now;
  }
  | ContainerStatus.removing ↦ record s { last_observed_at = some now }
]

module _ (rt : Runtime) where
  unfoldable pub create_session : ℕ → Profile → M rt.Outside Session
  create_session sandbox_id profile = do
    session_id ← ask rt.uuid
    created_at ← ask rt.utcnow
    last_active_at ← ask rt.utcnow
    let session : Session = record {
      id = session_id;
      sandbox_id = sandbox_id;
      runtime_type = elim (get_primary_container profile) [
        | none ↦ "ship"
        | some c ↦ c.runtime_type
      ];
      profile_id = profile.id;
      container_id = none;
      endpoint = none;
      containers = none;
      desired_state = SessionStatus.pending;
      observed_state = SessionStatus.pending;
      last_observed_at = none;
      created_at = created_at;
      last_active_at = last_active_at;
    }
    modify (λ w. record w { sessions = session ∷ w.sessions })
    pure session

  unfoldable pub get_session : ℕ → M rt.Outside (Option Session)
  get_session session_id = gets (λ w. first (λ s. s.id == session_id) w.sessions)

  unfoldable pub ensure_running_session : Session → Cargo → Profile → M rt.Outside Session
  ensure_running_session session cargo profile =
      if ltb 1 (length profile.containers)
      then ensure_running_multi rt session cargo profile
      else ensure_running_single rt session cargo profile

  -- Several containers are stopped and their network removed; else the one container, if any.
  abbrev pub stop_runtime : Session → M rt.Outside (Unit {0})
  stop_runtime s =
      if is_multi_container s && has_containers s
      then (do call (rt.stop_multi (infos_of s)); suppress (call (rt.remove_session_network s.id)))
      else elim s.container_id [ none ↦ pure tt | some container_id ↦ call (rt.stop container_id) ]

  abbrev pub finish_stop : Session → M rt.Outside (Unit {0})
  finish_stop s = do
    now ← ask rt.utcnow
    write_session (record s {
      observed_state = SessionStatus.stopped;
      endpoint = none;
      containers = none;
      last_observed_at = some now;
    })

  unfoldable pub stop_session : Session → M rt.Outside (Unit {0})
  stop_session s = do
    write_session (stopping_of s)
    stop_runtime (stopping_of s)
    finish_stop (stopping_of s)

  unfoldable pub destroy_runtime : Session → M rt.Outside (Unit {0})
  destroy_runtime s =
      if is_multi_container s && has_containers s
      then (do
        call (rt.destroy_multi (infos_of s))
        suppress (call (rt.remove_session_network s.id)))
      else elim s.container_id [
        | none ↦ pure tt
        | some container_id ↦ call (rt.destroy container_id)
      ]

  unfoldable pub destroy_session : Session → M rt.Outside (Unit {0})
  unfolding destroy_runtime
  destroy_session s = do
    destroy_runtime s
    modify (λ w. record w { sessions = delete (λ t. t.id == s.id) w.sessions })

  unfoldable pub refresh_status : List Profile → Session → M rt.Outside Session
  unfolding observe
  refresh_status profiles s = elim s.container_id [
    | none ↦ pure s
    | some container_id ↦ do
      let port : Option ℕ = elim (get_profile profiles s.profile_id) [
        | none ↦ none
        | some p ↦ elim (get_primary_container p) [ none ↦ none | some c ↦ some c.runtime_port ]
      ]
      info ← call (rt.status container_id port)
      now ← ask rt.utcnow
      write_session (observe s info now)
      pure (observe s info now)
  ]

  unfoldable pub touch_session : ℕ → M rt.Outside (Unit {0})
  touch_session session_id = do
    found ← gets (λ w. first (λ s. s.id == session_id) w.sessions)
    when (is_some found) (do
      now ← ask rt.utcnow
      modify (λ w. record w {
        sessions =
            update (λ s. s.id == session_id) (λ s. record s { last_active_at = now }) w.sessions;
      }))
