-- ===== src/Gc/Tests.antt =====
-- Concrete runs of the tasks.
use astrbot_shipyard_neo.Base.{
  ℕ, ◌≡◌, refl, true, false, none, some, List, [], ◌∷◌, first, map, ◌==◌,
}
use astrbot_shipyard_neo.Model.{ContainerStatus}
use astrbot_shipyard_neo.World.Runtime.{RuntimeInstance, ok}
use astrbot_shipyard_neo.World.Effect.{World, pure, call, ◌>>◌}
use astrbot_shipyard_neo.World.Sample.{calm, box, hold, start}
use astrbot_shipyard_neo.Cargo
use astrbot_shipyard_neo.Gc.Sweep.{GcResult}
use astrbot_shipyard_neo.Gc.Sandboxes.{process_idle}
use astrbot_shipyard_neo.Gc.Orphans.{process_instance, run_orphan_cargo}
use astrbot_shipyard_neo.Gc.Cycle.{GcConfig, run_cycle}
use astrbot_shipyard_neo.Gc.Reclaim.{IdleVerdict, process_idle_verdict}
use astrbot_shipyard_neo.Gc.Reports.{run_cycle_reports}
use astrbot_shipyard_neo.Gc.Kept.{process_instance_strict, run_orphan_cargo_spares}

-- At the moment 100 the sandbox has been idle since 90, and expired at 95.
abbrev quiet : World ℕ
quiet = record start {
  sandboxes = record box { idle_expires_at = some 90; expires_at = some 95 } ∷ [];
}

process_idle_verdict_example : IdleVerdict calm 1 quiet true (process_idle calm 1 quiet)
process_idle_verdict_example = process_idle_verdict calm 1 quiet

abbrev all_tasks : GcConfig
all_tasks = record {
  idle_session = true;
  expired_sandbox = true;
  orphan_cargo = false;
  orphan_container = true;
  instance_id = 4;
}

run_cycle_reports_example :
    (rs : List GcResult) × ((run_cycle calm true all_tasks quiet).0 ≡ ok rs)
    × (map (λ (r : GcResult). r.task_name) rs ≡ 0 ∷ 1 ∷ 3 ∷ [])
run_cycle_reports_example = run_cycle_reports calm all_tasks quiet

-- A container of the instance 4 whose session 9 has no row.
abbrev stray : RuntimeInstance
stray = record {
  id = 30;
  name = b'b' ∷ b'a' ∷ b'y' ∷ b'-' ∷ b's' ∷ [];
  labels =
      ("bay.session_id", 9)
      ∷ ("bay.sandbox_id", 1)
      ∷ ("bay.cargo_id", 2)
      ∷ ("bay.instance_id", 4)
      ∷ ("bay.managed", 1)
      ∷ [];
  state = ContainerStatus.running;
}

process_instance_strict_example :
    process_instance calm 4 stray start
    ≡ (call (calm.destroy_runtime_instance 30) >> pure true) start
process_instance_strict_example = process_instance_strict calm 4 stray start

-- An orphan beside the cargo of the sandbox.
abbrev two_cargos : World ℕ
two_cargos = record start {
  cargos = record hold { id = 6; managed_by_sandbox_id = none } ∷ hold ∷ [];
}

run_orphan_cargo_spares_example :
    first (λ c. c.id == 2) (run_orphan_cargo calm two_cargos).1.cargos ≡ some hold
run_orphan_cargo_spares_example = run_orphan_cargo_spares calm 2 two_cargos (refl, (refl, tt))

orphan_is_collected : (run_orphan_cargo calm two_cargos).1.cargos ≡ hold ∷ []
unfolding run_orphan_cargo Cargo.delete_internal_by_id
orphan_is_collected = refl
