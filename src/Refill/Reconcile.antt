-- ===== src/Refill/Reconcile.antt =====
-- `_is_session_runtime_healthy` and `_reconcile_profile_runtime_state`. The scheduler's coroutines
-- read and change Bay's queue too: they take it and return it beside their result.
use astrbot_shipyard_neo.Base.{
  ℕ, ◌+◌, Bool, true, false, Option, none, some, List, [], ◌∷◌, ◌++◌, ◌||◌, if◌then◌else◌, select,
}
use astrbot_shipyard_neo.Model.{
  Sandbox, Session, SessionStatus, ContainerInfo, ContainerStatus, MultiContainerInfo,
}
use astrbot_shipyard_neo.World.Runtime.{Runtime, RuntimeInstance}
use astrbot_shipyard_neo.World.Effect.{
  M, pure, gets, ask, attempt, ◌>>=◌, ◌>>◌, for_each, has_key, write_sandbox, write_session,
}
use astrbot_shipyard_neo.Sandbox.Lifecycle.{find_session}
use astrbot_shipyard_neo.Sandbox.Warm.{is_claimable}
use astrbot_shipyard_neo.Warmup.Queue.{WarmPoolConfig, WarmupQueue, enqueue}

abbrev is_up : ContainerStatus → Bool
is_up ContainerStatus.running = true
is_up _ = false

abbrev any_up : List RuntimeInstance → Bool
any_up [] = false
any_up (i ∷ instances) = is_up i.state || any_up instances

-- A probe that raises counts as healthy.
abbrev instances_up : Option (List RuntimeInstance) → Bool
instances_up none = true
instances_up (some instances) = any_up instances

abbrev container_up : Option ContainerInfo → Bool
container_up none = true
container_up (some info) = is_up info.status

abbrev pub listed : Option (List MultiContainerInfo) → Bool
listed none = false
listed (some []) = false
listed (some (c ∷ cs)) = true

-- What the row says once the runtime has turned out to be gone.
abbrev pub as_pending : Sandbox → Sandbox
as_pending s = record s { warm_state = none; warm_ready_at = none; warm_rotate_at = none }

abbrev pub as_stopped : ℕ → Session → Session
as_stopped now s = record s {
  observed_state = SessionStatus.stopped;
  endpoint = none;
  last_observed_at = some now;
}

-- `Sandbox.id.in_(stale_ids)`
abbrev pub is_stale : List ℕ → Sandbox → Bool
is_stale ids s = has_key s.id ids

-- The loop's `stale_ids`, its `requeued` and the queue.
pub record Found : Type 0 where
  pub stale_ids : List ℕ
  pub requeued : ℕ
  pub queue : WarmupQueue

module _ (rt : Runtime) (config : WarmPoolConfig) where
  unfoldable pub is_session_runtime_healthy : Session → M rt.Outside Bool
  is_session_runtime_healthy s =
      if listed s.containers
      then (do instances ← attempt (rt.session_instances s.id); pure (instances_up instances))
      else elim s.container_id [
        | none ↦ pure false
        | some k ↦ do info ← attempt (rt.status k none); pure (container_up info)
      ]

  unfoldable pub is_runtime_ok : Option Session → M rt.Outside Bool
  unfolding is_session_runtime_healthy
  is_runtime_ok none = pure false
  is_runtime_ok (some s) = is_session_runtime_healthy s

  abbrev pub note_stale : Sandbox → Found → Found
  note_stale s f =
      let (taken, queue) = enqueue config s.id s.owner f.queue in
      record {
        stale_ids = f.stale_ids ++ s.id ∷ [];
        requeued = if taken then f.requeued + 1 else f.requeued;
        queue = queue;
      }

  -- `for sandbox, session in available_rows`
  unfoldable pub probe_rows : List (Sandbox × Option Session) → Found → M rt.Outside Found
  unfolding is_runtime_ok
  probe_rows [] f = pure f
  probe_rows ((s, session) ∷ rows) f = do
    healthy ← is_runtime_ok session
    probe_rows rows (if healthy then f else note_stale s f)

  unfoldable pub reset_session : Option Session → M rt.Outside (Unit {0})
  reset_session none = pure tt
  reset_session (some session) = do now ← ask rt.utcnow; write_session (as_stopped now session)

  unfoldable pub reset_row : Sandbox → M rt.Outside (Unit {0})
  unfolding reset_session
  reset_row s = do
    write_sandbox s.id as_pending
    session ← gets (λ w. find_session s.current_session_id w.sessions)
    reset_session session

  -- The outer join of the warm sandboxes with their current sessions.
  abbrev pub joined : List Session → List Sandbox → List (Sandbox × Option Session)
  joined sessions [] = []
  joined sessions (s ∷ ss) = (s, find_session s.current_session_id sessions) ∷ joined sessions ss

  unfoldable pub reconcile : ℕ → WarmupQueue → M rt.Outside (ℕ × WarmupQueue)
  unfolding probe_rows for_each reset_row
  reconcile profile_id queue = do
    rows ← gets (λ w. joined w.sessions (select (is_claimable profile_id) w.sandboxes))
    found ← probe_rows rows (record { stale_ids = []; requeued = 0; queue = queue })
    stale ← gets (λ w. select (is_stale found.stale_ids) w.sandboxes)
    for_each stale reset_row
    pure (found.requeued, found.queue)
