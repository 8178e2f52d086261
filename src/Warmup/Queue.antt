-- ===== src/Warmup/Queue.antt =====
-- `WarmupQueue` without its workers' coroutines: the methods that run without an `await`, which are
-- `enqueue`, the start and the end of one task in `_worker_loop`, `start`, and `stop` up to the point
-- where it waits. `asyncio.Queue` is a list of items, unbounded if `maxsize` is 0; the `None` that
-- `stop` puts is `none`.
use astrbot_shipyard_neo.Base.{
  ℕ, zero, suc, ◌+◌, ◌-◌, Bool, true, false, Option, none, some, List, [], ◌∷◌, ◌++◌, ◌==◌, ◌&&◌,
  not, ltb, leb, if◌then◌else◌, delete, length,
}
use astrbot_shipyard_neo.World.Effect.{has_key}

pub record WarmupTask : Type 0 where
  pub sandbox_id : ℕ
  pub owner : ℕ

pub record WarmupQueueStats : Type 0 where
  pub enqueue_total : ℕ
  pub dedup_total : ℕ
  pub drop_total : ℕ
  pub consumed_total : ℕ
  pub success_total : ℕ
  pub failure_total : ℕ
  pub active_workers : ℕ

-- The two fields of the configuration that the queue's behaviour depends on.
pub record WarmPoolConfig : Type 0 where
  pub max_size : ℕ
  pub drop_oldest : Bool

pub record WarmupQueue : Type 0 where
  pub items : List (Option WarmupTask)
  -- the set `_pending`
  pub pending : List ℕ
  -- the number of tasks in `_workers`
  pub workers : ℕ
  pub running : Bool
  pub stats : WarmupQueueStats
  -- the tasks inside `_process_task`, which the source keeps in its coroutines' frames
  pub busy : List WarmupTask

-- `Queue.full()`
abbrev pub is_full : WarmPoolConfig → List (Option WarmupTask) → Bool
is_full config items = ltb 0 config.max_size && leb config.max_size (length items)

abbrev pub add : ℕ → List ℕ → List ℕ
add k ks = if has_key k ks then ks else k ∷ ks

abbrev pub discard : ℕ → List ℕ → List ℕ
discard k ks = delete (λ j. j == k) ks

-- `if evicted is not None: self._pending.discard(evicted.sandbox_id)`
abbrev pub forget : Option WarmupTask → List ℕ → List ℕ
forget none ks = ks
forget (some task) ks = discard task.sandbox_id ks

abbrev pub count_dedup : WarmupQueue → WarmupQueue
count_dedup q = record q { stats = record (q.stats) { dedup_total = q.stats.dedup_total + 1 } }

abbrev pub count_drop : WarmupQueue → WarmupQueue
count_drop q = record q { stats = record (q.stats) { drop_total = q.stats.drop_total + 1 } }

-- `put_nowait` that succeeds, `_pending.add`, and the counter
abbrev pub put : WarmupTask → List (Option WarmupTask) → List ℕ → WarmupQueue → WarmupQueue
put task items pending q = record q {
  items = items ++ some task ∷ [];
  pending = add task.sandbox_id pending;
  stats = record (q.stats) { enqueue_total = q.stats.enqueue_total + 1 };
}

-- The `drop_oldest` branch, on the items that the queue holds: `get_nowait`, and again `put_nowait`.
-- An eviction stays even when the second put finds the queue full.
unfoldable pub replace_oldest :
    WarmPoolConfig → WarmupTask → List (Option WarmupTask) → WarmupQueue → Bool × WarmupQueue
replace_oldest config task [] q = (false, q)
replace_oldest config task (oldest ∷ rest) q =
    if is_full config rest
    then (false, record q { items = rest; pending = forget oldest q.pending })
    else (true, put task rest (forget oldest q.pending) q)

unfoldable pub enqueue : WarmPoolConfig → ℕ → ℕ → WarmupQueue → Bool × WarmupQueue
unfolding replace_oldest
enqueue config sandbox_id owner q =
    let task : WarmupTask = record { sandbox_id = sandbox_id; owner = owner } in
    if has_key sandbox_id q.pending
    then (false, count_dedup q)
    else if not (is_full config q.items)
    then (true, put task q.items q.pending q)
    else if config.drop_oldest
    then replace_oldest config task q.items (count_drop q)
    else (false, count_drop q)

-- A worker gets the first item; a `None` ends the worker, and a task is begun.
unfoldable pub begin : List (Option WarmupTask) → WarmupQueue → WarmupQueue
begin [] q = q
begin (none ∷ rest) q = record q { items = rest }
begin (some task ∷ rest) q = record q {
  items = rest;
  busy = task ∷ q.busy;
  stats = record (q.stats) {
    active_workers = q.stats.active_workers + 1;
    consumed_total = q.stats.consumed_total + 1;
  };
}

-- How `_process_task` ends: the sandbox is gone, the warm-up succeeded or failed, or `stop` cancelled
-- the worker.
pub data Outcome : Type 0 where
  skipped succeeded failed cancelled : Outcome

abbrev pub count_outcome : Outcome → WarmupQueueStats → WarmupQueueStats
count_outcome Outcome.skipped s = s
count_outcome Outcome.succeeded s = record s { success_total = s.success_total + 1 }
count_outcome Outcome.failed s = record s { failure_total = s.failure_total + 1 }
count_outcome Outcome.cancelled s = s

abbrev pub one_less_active : WarmupQueueStats → WarmupQueueStats
one_less_active s = record s { active_workers = s.active_workers - 1 }

-- The end of a task that is in work: `busy` is the other tasks in work.
unfoldable pub finish : WarmupTask → List WarmupTask → Outcome → WarmupQueue → WarmupQueue
finish task busy outcome q = record q {
  busy = busy;
  pending = discard task.sandbox_id q.pending;
  stats = one_less_active (count_outcome outcome q.stats);
}

unfoldable pub start : ℕ → WarmupQueue → WarmupQueue
start num_workers q =
    if q.running then q else record q { running = true; workers = q.workers + num_workers }

-- `put_nowait(None)` for each worker, where a full queue is ignored.
unfoldable pub put_sentinels :
    WarmPoolConfig → ℕ → List (Option WarmupTask) → List (Option WarmupTask)
put_sentinels config zero items = items
put_sentinels config (suc n) items =
    put_sentinels config n (if is_full config items then items else items ++ none ∷ [])

unfoldable pub stop : WarmPoolConfig → WarmupQueue → WarmupQueue
unfolding put_sentinels
stop config q =
    if q.running
    then record q { running = false; items = put_sentinels config q.workers q.items }
    else q

-- `self._workers.clear()`
unfoldable pub clear_workers : WarmupQueue → WarmupQueue
clear_workers q = record q { workers = 0 }

-- `__init__`
abbrev pub init : WarmupQueue
init = record {
  items = [];
  pending = [];
  workers = 0;
  running = false;
  stats = record {
    enqueue_total = 0;
    dedup_total = 0;
    drop_total = 0;
    consumed_total = 0;
    success_total = 0;
    failure_total = 0;
    active_workers = 0;
  };
  busy = [];
}
