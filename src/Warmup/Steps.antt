-- ===== src/Warmup/Steps.antt =====
-- The queue as a transition system: the steps of the API, of the workers and of the start and the
-- stop of the service, in any order.
use astrbot_shipyard_neo.Base.{ℕ, ◌≡◌, refl, List, ◌∷◌, ◌++◌, arith}
use astrbot_shipyard_neo.Warmup.Queue.{
  WarmupTask, WarmPoolConfig, WarmupQueue, Outcome, enqueue, begin, finish, start, stop,
  clear_workers, init,
}
use astrbot_shipyard_neo.Warmup.Sound.{
  IsSound, enqueue-IsSound, begin-IsSound, finish-IsSound, start-IsSound, stop-IsSound,
}

module _ (config : WarmPoolConfig) where
  -- One step of the process.
  pub data Step : WarmupQueue → WarmupQueue → Type 0 where
    enqueued :
        (q : WarmupQueue) (sandbox_id owner : ℕ) → Step q ((enqueue config sandbox_id owner q).1)
    begun : (q : WarmupQueue) → Step q (begin q.items q)
    finished :
        (q : WarmupQueue) (front : List WarmupTask) (task : WarmupTask) (back : List WarmupTask)
        (outcome : Outcome)
        → q.busy ≡ front ++ task ∷ back
        → Step q (finish task (front ++ back) outcome q)
    started : (q : WarmupQueue) (num_workers : ℕ) → Step q (start num_workers q)
    stopped : (q : WarmupQueue) → Step q (stop config q)
    cleared : (q : WarmupQueue) → Step q (clear_workers q)

  pub data Reachable : WarmupQueue → Type 0 where
    fresh : Reachable init
    next : {q r : WarmupQueue} → Reachable q → Step q r → Reachable r

  init-IsSound : IsSound config init
  init-IsSound = ((λ k. omega arith), ground arith, omega arith)

  Step-IsSound : (q r : WarmupQueue) → Step q r → IsSound config q → IsSound config r
  unfolding clear_workers
  Step-IsSound _ _ (enqueued q sandbox_id owner) h = enqueue-IsSound config sandbox_id owner q h
  Step-IsSound _ _ (begun q) h = begin-IsSound config q.items q refl h
  Step-IsSound _ _ (finished q front task back outcome e) h =
      finish-IsSound config q front task back outcome e h
  Step-IsSound _ _ (started q n) h = start-IsSound config n q h
  Step-IsSound _ _ (stopped q) h = stop-IsSound config q h
  Step-IsSound _ _ (cleared q) h = h

  -- In every state that the service reaches, whatever the order of the steps: each id is pending as
  -- often as a task of it waits or is in work, and at most once; the queue keeps its bound; the active
  -- workers are those with a task; what was enqueued is what waits or was consumed, but for at most
  -- the drops; and the outcomes counted, with the tasks in work, are at most the consumed tasks.
  pub Reachable-IsSound : (q : WarmupQueue) → Reachable q → IsSound config q
  Reachable-IsSound _ fresh = init-IsSound
  Reachable-IsSound _ (next {q} {r} earlier step) =
      Step-IsSound q r step (Reachable-IsSound q earlier)
