-- ===== src/Warmup/Sound.antt =====
-- The invariant of `WarmupQueue` and that every operation preserves it: the pending ids are those of
-- the tasks that wait or are in work, the bound holds, and the counters add up.
use mathlib.Core.Path.{subst}
use astrbot_shipyard_neo.Base.{
  ◌⊎◌, times, ℕ, zero, suc, ◌+◌, ◌≤◌, ◌≡◌, ◌∙◌, ap, refl, Bool, true, false, Option, none, some,
  List, [], ◌∷◌, ◌++◌, ◌==◌, arith, if◌then◌else◌, Bool-cases, inl, inr, length, length-append,
}
use astrbot_shipyard_neo.World.Effect.{has_key}
use astrbot_shipyard_neo.Warmup.Queue.{
  WarmupTask, WarmPoolConfig, WarmupQueue, Outcome, is_full, add, discard, forget, count_drop,
  replace_oldest, enqueue, begin, finish, start, put_sentinels, stop,
}
use astrbot_shipyard_neo.Warmup.Pending.{
  times_queued, times_busy, tasks, times_queued-append, tasks-append, has_key-times,
  times-discard_same, times-discard_other, times_busy-middle, length-middle,
}

module _ (config : WarmPoolConfig) where
  -- An id is pending as often as a task of it waits or is in work, which is once at most.
  abbrev pub Once : List (Option WarmupTask) → List WarmupTask → List ℕ → ℕ → Type 0
  Once items busy pending k =
      (times_queued k items + times_busy k busy ≡ times k pending) × (times k pending ≤ 1)

  abbrev pub IsBounded : List (Option WarmupTask) → Type 0
  IsBounded items = (config.max_size ≡ 0) ⊎ (length items ≤ config.max_size)

  -- The counters add up.
  abbrev pub IsBalanced : WarmupQueue → Type 0
  IsBalanced q =
      (q.stats.active_workers ≡ length q.busy)
      × (tasks q.items + q.stats.consumed_total ≤ q.stats.enqueue_total)
      × (q.stats.enqueue_total ≤ tasks q.items + q.stats.consumed_total + q.stats.drop_total)
      × (q.stats.success_total + q.stats.failure_total + length q.busy ≤ q.stats.consumed_total)

  cons-Once :
      (task : WarmupTask) (k : ℕ) (items : List (Option WarmupTask)) (busy : List WarmupTask)
      (pending : List ℕ)
      → has_key task.sandbox_id pending ≡ false
      → Once items busy pending k
      → Once (items ++ some task ∷ []) busy (task.sandbox_id ∷ pending) k
  cons-Once task k items busy pending free h =
      rw (times_queued-append k items (some task ∷ [])) ground (arith, has_key-times k pending)

  add-Once :
      (task : WarmupTask) (k : ℕ) (items : List (Option WarmupTask)) (busy : List WarmupTask)
      (pending : List ℕ)
      → has_key task.sandbox_id pending ≡ false
      → Once items busy pending k
      → Once (items ++ some task ∷ []) busy (add task.sandbox_id pending) k
  add-Once task k items busy pending free h = rw free (cons-Once task k items busy pending free h)

  has_key-discard :
      (i k : ℕ) (ks : List ℕ) → has_key k ks ≡ false → has_key k (discard i ks) ≡ false
  has_key-discard i k [] h = refl
  has_key-discard i k (j ∷ js) h = ground (arith, has_key-discard i k js)

  has_key-forget :
      (item : Option WarmupTask) (k : ℕ) (ks : List ℕ)
      → has_key k ks ≡ false
      → has_key k (forget item ks) ≡ false
  has_key-forget none k ks h = h
  has_key-forget (some task) k ks h = has_key-discard task.sandbox_id k ks h

  forget-Once :
      (item : Option WarmupTask) (k : ℕ) (rest : List (Option WarmupTask)) (busy : List WarmupTask)
      (pending : List ℕ)
      → Once (item ∷ rest) busy pending k
      → Once rest busy (forget item pending) k
  forget-Once none k rest busy pending h = ground arith
  forget-Once (some task) k rest busy pending h = elim (Bool-cases (task.sandbox_id == k)) [
    | inl e ↦ ground (arith, times-discard_same k pending)
    | inr e ↦ ground (arith, times-discard_other k task.sandbox_id pending e)
  ]

  finish-Once :
      (task : WarmupTask) (k : ℕ) (items : List (Option WarmupTask)) (front back : List WarmupTask)
      (pending : List ℕ)
      → Once items (front ++ task ∷ back) pending k
      → Once items (front ++ back) (discard task.sandbox_id pending) k
  finish-Once task k items front back pending h = elim (Bool-cases (task.sandbox_id == k)) [
    | inl e ↦ ground (arith, times-discard_same k pending, times_busy-middle k front task back)
    | inr e ↦ ground (
      arith,
      times-discard_other k task.sandbox_id pending e,
      times_busy-middle k front task back,
    )
  ]

  -- The invariant.
  abbrev pub IsSound : WarmupQueue → Type 0
  IsSound q = ((k : ℕ) → Once q.items q.busy q.pending k) × IsBounded q.items × IsBalanced q

  tasks_item-le :
      (item : Option WarmupTask) (rest : List (Option WarmupTask))
      → (tasks (item ∷ rest) ≤ 1 + tasks rest) × (tasks rest ≤ tasks (item ∷ rest))
  tasks_item-le none rest = omega arith
  tasks_item-le (some task) rest = omega arith

  restart-IsSound :
      (q : WarmupQueue) {items : List (Option WarmupTask)}
      → q.items ≡ items
      → IsSound q
      → ((k : ℕ) → Once items q.busy q.pending k) × IsBounded items
  restart-IsSound q e h =
      subst (λ i. ((k : ℕ) → Once i q.busy q.pending k) × IsBounded i) e (h.0, h.1)

  shorter-IsBounded :
      (rest : List (Option WarmupTask)) (item : Option WarmupTask)
      → IsBounded (item ∷ rest)
      → IsBounded rest
  shorter-IsBounded rest item h = ground arith

  put-IsBounded :
      (items : List (Option WarmupTask)) (item : Option WarmupTask)
      → is_full config items ≡ false
      → IsBounded (items ++ item ∷ [])
  put-IsBounded items item room = ground (arith, length-append items (item ∷ []))

  either-IsSound :
      (b : Bool) (x y : Bool × WarmupQueue)
      → IsSound x.1
      → IsSound y.1
      → IsSound (if b then x else y).1
  either-IsSound true x y hx hy = hx
  either-IsSound false x y hx hy = hy

  replace_oldest-IsSound :
      (task : WarmupTask) (items : List (Option WarmupTask)) (q : WarmupQueue)
      → q.items ≡ items
      → has_key task.sandbox_id q.pending ≡ false
      → IsSound q
      → IsSound (replace_oldest config task items (count_drop q)).1
  unfolding replace_oldest
  replace_oldest-IsSound task [] q e free h = (h.0, h.1, ground arith)
  replace_oldest-IsSound task (oldest ∷ rest) q e free h =
      let (once, bound) = restart-IsSound q e h in
      elim (Bool-cases (is_full config rest)) [
        | inl full ↦ rw full (
          (λ k. forget-Once oldest k rest q.busy q.pending (once k)),
          shorter-IsBounded rest oldest bound,
          ground (arith, ap tasks e, tasks_item-le oldest rest),
        )
        | inr room ↦ rw room (
          (λ k.
              add-Once task k rest q.busy (forget oldest q.pending)
                (has_key-forget oldest task.sandbox_id q.pending free)
                (forget-Once oldest k rest q.busy q.pending (once k))),
          put-IsBounded rest (some task) room,
          ground (arith, ap tasks e, tasks_item-le oldest rest, tasks-append rest (some task ∷ [])),
        )
      ]

  pub enqueue-IsSound :
      (sandbox_id owner : ℕ) (q : WarmupQueue)
      → IsSound q
      → IsSound (enqueue config sandbox_id owner q).1
  unfolding enqueue
  enqueue-IsSound sandbox_id owner q h =
      let task : WarmupTask = record { sandbox_id = sandbox_id; owner = owner } in
      elim (Bool-cases (has_key sandbox_id q.pending)) [
        | inl there ↦ rw there h
        | inr free ↦ elim (Bool-cases (is_full config q.items)) [
          | inr room ↦
              rw (free, room)
                (
                  (λ k. cons-Once task k q.items q.busy q.pending free (h.0 k)),
                  put-IsBounded q.items (some task) room,
                  ground (arith, tasks-append q.items (some task ∷ [])),
                )
          | inl full ↦
              rw (free, full)
                (either-IsSound config.drop_oldest
                  (replace_oldest config task q.items (count_drop q)) (false, count_drop q)
                  (replace_oldest-IsSound task q.items q refl free h) (h.0, h.1, ground arith))
        ]
      ]

  pub begin-IsSound :
      (items : List (Option WarmupTask)) (q : WarmupQueue)
      → q.items ≡ items
      → IsSound q
      → IsSound (begin items q)
  unfolding begin
  begin-IsSound [] q e h = h
  begin-IsSound (none ∷ rest) q e h =
      let (once, bound) = restart-IsSound q e h in
      ((λ k. ground (arith, once k)), shorter-IsBounded rest none bound, ground (arith, ap tasks e))
  begin-IsSound (some task ∷ rest) q e h =
      let (once, bound) = restart-IsSound q e h in
      (
        (λ k. ground (arith, once k)),
        shorter-IsBounded rest (some task) bound,
        ground (arith, ap tasks e),
      )

  finish-IsBalanced :
      (outcome : Outcome) (task : WarmupTask) (busy : List WarmupTask) (q : WarmupQueue)
      → length q.busy ≡ 1 + length busy
      → IsBalanced q
      → IsBalanced (finish task busy outcome q)
  unfolding finish
  finish-IsBalanced Outcome.skipped task busy q e h = ground arith
  finish-IsBalanced Outcome.succeeded task busy q e h = ground arith
  finish-IsBalanced Outcome.failed task busy q e h = ground arith
  finish-IsBalanced Outcome.cancelled task busy q e h = ground arith

  pub finish-IsSound :
      (q : WarmupQueue) (front : List WarmupTask) (task : WarmupTask) (back : List WarmupTask)
      (outcome : Outcome)
      → q.busy ≡ front ++ task ∷ back
      → IsSound q
      → IsSound (finish task (front ++ back) outcome q)
  unfolding finish
  finish-IsSound q front task back outcome e h =
      let once : (k : ℕ) → Once q.items (front ++ task ∷ back) q.pending k =
        subst (λ b. (k : ℕ) → Once q.items b q.pending k) e h.0 in
      (
        (λ k. finish-Once task k q.items front back q.pending (once k)),
        h.1,
        finish-IsBalanced outcome task (front ++ back) q
            (ap length e ∙ length-middle front task back) h.2,
      )

  pub start-IsSound : (n : ℕ) (q : WarmupQueue) → IsSound q → IsSound (start n q)
  unfolding start
  start-IsSound n q h = elim (Bool-cases q.running) [ inl e ↦ rw e h | inr e ↦ rw e h ]

  -- Sentinels are no tasks.
  put_sentinels_lem :
      (n : ℕ) (items : List (Option WarmupTask))
      → IsBounded items
      → IsBounded (put_sentinels config n items)
        × (tasks (put_sentinels config n items) ≡ tasks items)
        × ((k : ℕ) → times_queued k (put_sentinels config n items) ≡ times_queued k items)
  unfolding put_sentinels
  put_sentinels_lem zero items h = (h, refl, λ k. refl)
  put_sentinels_lem (suc n) items h = elim (Bool-cases (is_full config items)) [
    | inl full ↦ rw full (put_sentinels_lem n items h)
    | inr room ↦
        let (bound, same, times_same) =
          put_sentinels_lem n (items ++ none ∷ []) (put-IsBounded items none room) in
        rw room (
          bound,
          same ∙ ground (arith, tasks-append items (none ∷ [])),
          (λ k. times_same k ∙ ground (arith, times_queued-append k items (none ∷ []))),
        )
  ]

  pub stop-IsSound : (q : WarmupQueue) → IsSound q → IsSound (stop config q)
  unfolding stop
  stop-IsSound q h =
      let (bound, same, times_same) = put_sentinels_lem q.workers q.items h.1 in
      elim (Bool-cases q.running) [
        | inl e ↦ rw e ((λ k. ground (arith, h.0 k, times_same k)), bound, ground arith)
        | inr e ↦ rw e h
      ]
