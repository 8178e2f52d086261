-- ===== src/World/Sample.antt =====
-- A world for the tests: its state is a clock that also numbers what is made, every call succeeds,
-- and every runtime is healthy.
use Prim.Native.Nat.{ℕ, ◌+◌}
use astrbot_shipyard_neo.Base.{Bool, true, none, some, [], ◌∷◌}
use astrbot_shipyard_neo.Model.{
  Sandbox, Session, SessionStatus, Cargo, ContainerStatus, Profile, Settings,
}
use astrbot_shipyard_neo.World.Runtime.{Runtime, ok, answered}
use astrbot_shipyard_neo.World.Effect.{World}

abbrev pub calm : Runtime
calm = record {
  Outside = ℕ;
  utcnow = λ o. (o, o + 1);
  uuid = λ o. (o, o + 1);
  loop_time = λ o. (o, o);
  sleep = λ d o. o + d;
  health = λ k o. (answered 200 (some true), o);
  create_volume = λ k o. (ok o, o + 1);
  delete_volume = λ k o. (ok tt, o);
  create = λ s p c o. (ok o, o + 1);
  start = λ k p o. (ok o, o + 1);
  stop = λ k o. (ok tt, o);
  destroy = λ k o. (ok tt, o);
  status = λ k p o. (
    ok (record {
      container_id = k;
      status = ContainerStatus.running;
      endpoint = some k;
      exit_code = none;
    }),
    o,
  );
  create_session_network = λ k o. (ok o, o + 1);
  remove_session_network = λ k o. (ok tt, o);
  create_multi = λ s p c n o. (ok [], o);
  start_multi = λ is o. (ok is, o);
  stop_multi = λ is o. (ok tt, o);
  destroy_multi = λ is o. (ok tt, o);
  session_instances = λ k o. (ok [], o);
  cargo_instances = λ k o. (ok [], o);
  managed_instances = λ k o. (ok [], o);
  destroy_runtime_instance = λ k o. (ok tt, o);
  destroy_browser_session = λ k o. (ok tt, o);
}

abbrev pub box : Sandbox
box = record {
  id = 1;
  owner = 7;
  profile_id = 5;
  cargo_id = some 2;
  current_session_id = some 3;
  expires_at = some 900;
  idle_expires_at = none;
  deleted_at = none;
  version = 1;
  created_at = 0;
  last_active_at = 0;
  is_warm_pool = Bool.false;
  warm_state = none;
  warm_ready_at = none;
  warm_rotate_at = none;
  warm_claimed_at = none;
  warm_source_profile_id = none;
}

abbrev pub hold : Cargo
hold = record {
  id = 2;
  owner = 7;
  driver_ref = 20;
  managed = true;
  managed_by_sandbox_id = some 1;
  size_limit_mb = 1024;
  created_at = 0;
  last_accessed_at = 0;
}

abbrev pub idle_session : Session
idle_session = record {
  id = 3;
  sandbox_id = 1;
  runtime_type = "ship";
  profile_id = 5;
  container_id = none;
  endpoint = none;
  containers = none;
  desired_state = SessionStatus.pending;
  observed_state = SessionStatus.pending;
  last_observed_at = none;
  created_at = 0;
  last_active_at = 0;
}

abbrev pub profile : Profile
profile = record {
  id = 5;
  containers = [];
  idle_timeout = 60;
  warm_pool_size = 1;
  warm_rotate_ttl = 30;
  shares_browser = Bool.false;
}

abbrev pub settings : Settings
settings = record {
  profiles = profile ∷ [];
  default_size_limit_mb = 1024;
  browser_service_enabled = Bool.false;
}

-- One sandbox with its managed cargo and a session that has not started, at the moment 100.
abbrev pub start : World ℕ
start = record {
  sandboxes = box ∷ [];
  sessions = idle_session ∷ [];
  cargos = hold ∷ [];
  locks = [];
  outside = 100;
}
