-- ===== src/Session/Tests.antt =====
-- The session theorems at a session that has not started and at one that runs in two containers.
use astrbot_shipyard_neo.Base.{◌≡◌, refl, ℕ, some, [], ◌∷◌, arith}
use astrbot_shipyard_neo.Model.{Session, SessionStatus, MultiContainerInfo, ContainerStatus}
use astrbot_shipyard_neo.World.Runtime.{ok}
use astrbot_shipyard_neo.World.Effect.{World, call}
use astrbot_shipyard_neo.World.Post.{Post}
use astrbot_shipyard_neo.World.Sample.{calm, start, hold, idle_session, profile}
use astrbot_shipyard_neo.Session.Wait.{wait_for_ready}
use astrbot_shipyard_neo.Session.Patience.{IsClock, Waits, wait_for_ready-Waits}
use astrbot_shipyard_neo.Session.Single.{ensure_running_single}
use astrbot_shipyard_neo.Session.Settled.{Settles, Rows, ensure_running_single-Settles}
use astrbot_shipyard_neo.Session.Manager.{stop_session, destroy_runtime}
use astrbot_shipyard_neo.Session.Leak.{stop_then_destroy}

calm-IsClock : IsClock calm (λ o. o)
calm-IsClock = record {
  reads = λ o. refl;
  reads_forward = λ o. omega arith;
  sleeps = λ d o. omega arith;
  polls_forward = λ k o. omega arith;
}

wait_for_ready-Waits_example :
    Post (Waits calm (λ o. o) calm-IsClock 9 "browser") (wait_for_ready calm 9 "browser" start)
wait_for_ready-Waits_example = wait_for_ready-Waits calm (λ o. o) calm-IsClock 9 "browser" start

ensure_running_single-Settles_example :
    Post (Settles calm 3) (ensure_running_single calm idle_session hold profile start)
ensure_running_single-Settles_example =
    ensure_running_single-Settles calm idle_session hold profile start (λ h. cc) refl

abbrev part : ℕ → MultiContainerInfo
part k = record {
  name = "ship";
  container_id = k;
  endpoint = some k;
  status = ContainerStatus.running;
  runtime_type = "ship";
  capabilities = [];
}

-- A session of two containers, 11 and 12.
abbrev pair : Session
pair = record idle_session {
  container_id = some 11;
  endpoint = some 11;
  containers = some (part 11 ∷ part 12 ∷ []);
  observed_state = SessionStatus.running;
}

abbrev running : World ℕ
running = record start { sessions = pair ∷ [] }

stopped : (stop_session calm pair running).0 ≡ ok tt
unfolding stop_session
stopped = refl

stop_then_destroy_example :
    Rows 3
      (λ t. (v : World ℕ) → destroy_runtime calm t v ≡ call (calm.destroy 11) v)
      (stop_session calm pair running).1.sessions
stop_then_destroy_example = stop_then_destroy calm pair 11 running refl stopped
