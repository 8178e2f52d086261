-- ===== src/Gc/Reports.antt =====
-- What the tasks report: a loop never raises and counts every item once, and a cycle reports once for
-- every enabled task.
use mathlib.Core.Path.{subst}
use astrbot_shipyard_neo.Base.{
  ℕ, ◌+◌, ◌≡◌, refl, ◌∙◌, ap, Bool, true, false, List, [], ◌∷◌, map, arith, length, length-map,
  select,
}
use astrbot_shipyard_neo.Model.{Sandbox}
use astrbot_shipyard_neo.World.Runtime.{Runtime, Result, ok, raise}
use astrbot_shipyard_neo.World.Effect.{World, M, pure, ◌>>=◌, proceed, handle}
use astrbot_shipyard_neo.World.Post.{Post, bind-Post, Post-elim, bind_of_ok}
use astrbot_shipyard_neo.Gc.Sweep.{GcResult, new_result, add_error, count_item, sweep_item, sweep}
use astrbot_shipyard_neo.Gc.Sandboxes.{is_idle, process_idle, run_idle}
use astrbot_shipyard_neo.Gc.Cycle.{GcConfig, GcTask, run_task, run_tasks, tasks_of, run_cycle}

-- The number of items that a result accounts for.
abbrev pub total : GcResult → ℕ
total r = r.cleaned_count + r.skipped_count + length r.errors

module _ {O A : Type 0} (id_of : A → ℕ) (process : A → M O Bool) where
  abbrev Counts : ℕ → Result GcResult → World O → Type 0
  Counts n (ok r) w = total r ≡ n
  Counts n (raise e) w = ⊥

  item-Counts :
      (item : A) (r : GcResult) (x : Result Bool × World O)
      → Post (Counts (total r + 1)) (
          handle
            (λ e. pure (add_error (id_of item) e r))
            (proceed (λ cleaned. pure (count_item cleaned r)) x))
  item-Counts item r (ok true, w) = ground arith
  item-Counts item r (ok false, w) = ground arith
  item-Counts item r (raise e, w) = ground arith

  sweep_item-Counts :
      (item : A) (r : GcResult) (w : World O)
      → Post (Counts (total r + 1)) (sweep_item id_of process item r w)
  unfolding sweep_item
  sweep_item-Counts item r w = item-Counts item r (process item w)

  pub sweep-Counts :
      (items : List A) (r : GcResult) (w : World O)
      → Post (Counts (total r + length items)) (sweep id_of process items r w)
  unfolding sweep
  sweep-Counts [] r w = ground arith
  sweep-Counts (item ∷ items) r w =
      bind-Post (Counts (total r + length (item ∷ items))) (sweep_item id_of process item r)
        (λ r'. sweep id_of process items r') w
        (λ r' done.
          let one : total r' ≡ total r + 1 =
            Post-elim (Counts (total r + 1)) (sweep_item id_of process item r w)
              (sweep_item-Counts item r w) done in
          subst
            (λ n.
              Post (Counts n) (sweep id_of process items r' (sweep_item id_of process item r w).1))
            (omega (arith, one)) (sweep-Counts items r' (sweep_item id_of process item r w).1))
        (λ e raised.
          Post-elim (Counts (total r + 1)) (sweep_item id_of process item r w)
            (sweep_item-Counts item r w) raised)

  returned :
      (n : ℕ) (x : Result GcResult × World O)
      → Post (Counts n) x
      → (r : GcResult) × (x.0 ≡ ok r) × (total r ≡ n)
  returned n (ok r, w) h = (r, refl, h)
  returned n (raise e, w) h = absurd h

  pub sweep_reports :
      (name : ℕ) (items : List A) (w : World O)
      → (r : GcResult) × ((sweep id_of process items (new_result name) w).0 ≡ ok r)
        × (total r ≡ length items)
  sweep_reports name items w =
      returned (length items) (sweep id_of process items (new_result name) w) (
        subst (λ n. Post (Counts n) (sweep id_of process items (new_result name) w)) (omega arith)
          (sweep-Counts items (new_result name) w))

module _ (rt : Runtime) where
  -- The idle task never raises, and each sandbox that it selects is counted once: as cleaned, as
  -- skipped, or with its error.
  pub run_idle_reports :
      (w : World rt.Outside)
      → (r : GcResult) × ((run_idle rt w).0 ≡ ok r)
        × (total r ≡ length (select (is_idle (rt.utcnow w.outside).0) w.sandboxes))
  unfolding run_idle
  run_idle_reports w =
      let now : ℕ = (rt.utcnow w.outside).0 in
      let due : List Sandbox = select (is_idle now) w.sandboxes in
      let (r, done, counted) =
        sweep_reports (λ k. k) (process_idle rt) 0 (map (λ (s : Sandbox). s.id) due)
          (record w { outside = (rt.utcnow w.outside).1 }) in
      (r, done, counted ∙ length-map (λ (s : Sandbox). s.id) due)

  task-Named :
      (task : GcTask rt) (x : Result GcResult × World rt.Outside)
      → (r : GcResult) × ((handle
            (λ e. pure (add_error task.name e (new_result task.name)))
            (proceed (λ r. pure (record r { task_name = task.name })) x)).0
          ≡ ok r)
        × (r.task_name ≡ task.name)
  task-Named task (ok r, w) = (record r { task_name = task.name }, refl, refl)
  task-Named task (raise e, w) = (add_error task.name e (new_result task.name), refl, refl)

  run_task_lem :
      (task : GcTask rt) (w : World rt.Outside)
      → (r : GcResult) × ((run_task rt task w).0 ≡ ok r) × (r.task_name ≡ task.name)
  unfolding run_task
  run_task_lem task w = task-Named task (task.run w)

  run_tasks_lem :
      (tasks : List (GcTask rt)) (w : World rt.Outside)
      → (rs : List GcResult) × ((run_tasks rt tasks w).0 ≡ ok rs)
        × (map (λ (r : GcResult). r.task_name) rs ≡ map (λ (t : GcTask rt). t.name) tasks)
  unfolding run_tasks
  run_tasks_lem [] w = ([], refl, refl)
  run_tasks_lem (task ∷ tasks) w =
      let (r, done, same) = run_task_lem task w in
      let (rs, rest, names) = run_tasks_lem tasks (run_task rt task w).1 in
      (
        r ∷ rs,
        ap (λ (x : Result (List GcResult) × World rt.Outside). x.0)
            (bind_of_ok (run_task rt task) (λ r'. run_tasks rt tasks >>= λ rs'. pure (r' ∷ rs')) w
                done
              ∙ bind_of_ok (run_tasks rt tasks) (λ rs'. pure (r ∷ rs')) (run_task rt task w).1
                  rest),
        ap (◌∷◌ r.task_name) names ∙ ap (λ n. n ∷ map (λ (t : GcTask rt). t.name) tasks) same,
      )

  -- A cycle that may run never raises, and gives one result for every enabled task, in their order,
  -- under the task's name, also when tasks raise.
  pub run_cycle_reports :
      (config : GcConfig) (w : World rt.Outside)
      → (rs : List GcResult) × ((run_cycle rt true config w).0 ≡ ok rs)
        × (map (λ (r : GcResult). r.task_name) rs
            ≡ map (λ (t : GcTask rt). t.name) (tasks_of rt config))
  unfolding run_cycle
  run_cycle_reports config w = run_tasks_lem (tasks_of rt config) w
