-- ===== src/Warmup/Tests.antt =====
-- Tests and witnesses of the warm-up queue: a full queue that replaces its oldest task while another
-- task is in work.
use astrbot_shipyard_neo.Base.{◌≡◌, refl, true, some, [], ◌∷◌}
use astrbot_shipyard_neo.Warmup.Queue.{
  WarmPoolConfig, WarmupQueue, enqueue, begin, start, init, replace_oldest,
}
use astrbot_shipyard_neo.Warmup.Sound.{IsSound}
use astrbot_shipyard_neo.Warmup.Steps.{
  Reachable, fresh, next, enqueued, begun, started, Reachable-IsSound,
}

abbrev tiny : WarmPoolConfig
tiny = record { max_size = 1; drop_oldest = true }

abbrev busy_queue : WarmupQueue
busy_queue = begin (enqueue tiny 1 7 (start 2 init)).1.items (enqueue tiny 1 7 (start 2 init)).1

abbrev full_queue : WarmupQueue
full_queue = (enqueue tiny 3 7 (enqueue tiny 2 7 busy_queue).1).1

evicts : full_queue.items ≡ some (record { sandbox_id = 3; owner = 7 }) ∷ []
unfolding enqueue replace_oldest begin start
evicts = refl

full_queue-Reachable : Reachable tiny full_queue
full_queue-Reachable =
    next
      (next
        (next (next (next fresh (started init 2)) (enqueued (start 2 init) 1 7))
          (begun (enqueue tiny 1 7 (start 2 init)).1))
        (enqueued busy_queue 2 7))
      (enqueued (enqueue tiny 2 7 busy_queue).1 3 7)

Reachable-IsSound_example : IsSound tiny full_queue
Reachable-IsSound_example = Reachable-IsSound tiny full_queue full_queue-Reachable
