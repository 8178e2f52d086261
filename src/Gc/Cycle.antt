-- ===== src/Gc/Cycle.antt =====
-- `GCScheduler._run_task` and the cycle of `SessionPerCycleGCScheduler`.
use astrbot_shipyard_neo.Base.{ℕ, Bool, List, [], ◌∷◌, ◌++◌, if◌then◌else◌}
use astrbot_shipyard_neo.World.Runtime.{Runtime}
use astrbot_shipyard_neo.World.Effect.{M, pure, ◌>>=◌, catch}
use astrbot_shipyard_neo.Gc.Sweep.{GcResult, new_result, add_error}
use astrbot_shipyard_neo.Gc.Sandboxes.{run_idle, run_expired}
use astrbot_shipyard_neo.Gc.Orphans.{run_orphan_cargo, run_orphan_container}

-- The `enabled` flags of the tasks, and `get_instance_id()`.
pub record GcConfig : Type 0 where
  pub idle_session : Bool
  pub expired_sandbox : Bool
  pub orphan_cargo : Bool
  pub orphan_container : Bool
  pub instance_id : ℕ

module _ (rt : Runtime) where
  pub record GcTask : Type 0 where
    pub name : ℕ
    pub run : M rt.Outside GcResult

  -- `result.task_name = task.name`, and a result with one error for a task that raises
  unfoldable pub run_task : GcTask → M rt.Outside GcResult
  run_task task =
      catch (do r ← task.run; pure (record r { task_name = task.name }))
        (λ e. pure (add_error task.name e (new_result task.name)))

  unfoldable pub run_tasks : List GcTask → M rt.Outside (List GcResult)
  unfolding run_task
  run_tasks [] = pure []
  run_tasks (task ∷ tasks) = do r ← run_task task; rs ← run_tasks tasks; pure (r ∷ rs)

  abbrev enabled : Bool → GcTask → List GcTask
  enabled on task = if on then task ∷ [] else []

  abbrev pub tasks_of : GcConfig → List GcTask
  tasks_of config =
      enabled config.idle_session (record { name = 0; run = run_idle rt })
      ++ (enabled config.expired_sandbox (record { name = 1; run = run_expired rt })
          ++ (enabled config.orphan_cargo (record { name = 2; run = run_orphan_cargo rt })
              ++ enabled config.orphan_container
                  (record { name = 3; run = run_orphan_container rt config.instance_id })))

  -- The argument is what the coordinator yields.
  unfoldable pub run_cycle : Bool → GcConfig → M rt.Outside (List GcResult)
  unfolding run_tasks
  run_cycle acquired config = if acquired then run_tasks (tasks_of config) else pure []
