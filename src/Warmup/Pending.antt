-- ===== src/Warmup/Pending.antt =====
-- How often an id stands in the queue, among the tasks in work, and in the set of pending ids.
use astrbot_shipyard_neo.Base.{
  one_if, times, ℕ, ◌+◌, ◌≡◌, refl, false, Option, none, some, List, [], ◌∷◌, ◌++◌, ◌==◌, arith,
  delete, length,
}
use astrbot_shipyard_neo.World.Effect.{has_key}
use astrbot_shipyard_neo.Warmup.Queue.{WarmupTask}

abbrev pub times_item : ℕ → Option WarmupTask → ℕ
times_item k none = 0
times_item k (some task) = one_if task.sandbox_id k

abbrev pub times_queued : ℕ → List (Option WarmupTask) → ℕ
times_queued k [] = 0
times_queued k (item ∷ items) = times_item k item + times_queued k items

abbrev pub times_busy : ℕ → List WarmupTask → ℕ
times_busy k [] = 0
times_busy k (task ∷ tasks) = one_if task.sandbox_id k + times_busy k tasks

-- The number of tasks among the items.
abbrev pub tasks : List (Option WarmupTask) → ℕ
tasks [] = 0
tasks (none ∷ items) = tasks items
tasks (some task ∷ items) = 1 + tasks items

pub times_queued-append :
    (k : ℕ) (items more : List (Option WarmupTask))
    → times_queued k (items ++ more) ≡ times_queued k items + times_queued k more
times_queued-append k [] more = omega arith
times_queued-append k (item ∷ items) more = omega (arith, times_queued-append k items more)

pub tasks-append :
    (items more : List (Option WarmupTask)) → tasks (items ++ more) ≡ tasks items + tasks more
tasks-append [] more = omega arith
tasks-append (none ∷ items) more = omega (arith, tasks-append items more)
tasks-append (some task ∷ items) more = omega (arith, tasks-append items more)

pub has_key-times : (k : ℕ) (ks : List ℕ) → has_key k ks ≡ false → times k ks ≡ 0
has_key-times k [] h = refl
has_key-times k (j ∷ js) h = ground (arith, has_key-times k js)

pub times-discard_same : (k : ℕ) (ks : List ℕ) → times k (delete (λ j. j == k) ks) ≡ 0
times-discard_same k [] = refl
times-discard_same k (j ∷ js) = ground (arith, times-discard_same k js)

pub times-discard_other :
    (k i : ℕ) (ks : List ℕ) → (i == k) ≡ false → times k (delete (λ j. j == i) ks) ≡ times k ks
times-discard_other k i [] h = refl
times-discard_other k i (j ∷ js) h = ground (arith, times-discard_other k i js h)

pub times_busy-middle :
    (k : ℕ) (front : List WarmupTask) (task : WarmupTask) (back : List WarmupTask)
    → times_busy k (front ++ task ∷ back) ≡ one_if task.sandbox_id k + times_busy k (front ++ back)
times_busy-middle k [] task back = refl
times_busy-middle k (t ∷ front) task back = omega (arith, times_busy-middle k front task back)

pub length-middle :
    (front : List WarmupTask) (task : WarmupTask) (back : List WarmupTask)
    → length (front ++ task ∷ back) ≡ 1 + length (front ++ back)
length-middle [] task back = omega arith
length-middle (t ∷ front) task back = omega (arith, length-middle front task back)
