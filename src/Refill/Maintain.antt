-- ===== src/Refill/Maintain.antt =====
-- `_maintain_profile` with `_create_warm_sandbox` and `_retire_warm_sandbox`, and the cycle.
use astrbot_shipyard_neo.Base.{
  ℕ, zero, suc, ◌+◌, ◌-◌, Bool, true, false, Option, none, some, List, [], ◌∷◌, ◌&&◌, not, ltb, leb,
  if◌then◌else◌, is_none, select, count, update, length, ◌==◌,
}
use astrbot_shipyard_neo.Model.{Sandbox, Profile, Settings, WarmState}
use astrbot_shipyard_neo.World.Runtime.{Runtime, Result, ok, raise}
use astrbot_shipyard_neo.World.Effect.{M, pure, gets, modify, ask, ◌>>=◌, ◌>>◌, for_each, suppress}
use astrbot_shipyard_neo.Router.Capability.{reify}
use astrbot_shipyard_neo.Sandbox.Create.{create_warm_sandbox, get_sandbox}
use astrbot_shipyard_neo.Sandbox.Lifecycle.{delete_sandbox}
use astrbot_shipyard_neo.Sandbox.Warm.{is_claimable, as_retiring}
use astrbot_shipyard_neo.Warmup.Queue.{WarmPoolConfig, WarmupQueue, enqueue}
use astrbot_shipyard_neo.Refill.Reconcile.{reconcile}

-- `warm_state IS NULL`, for a live row of the pool: created or requeued, and not yet available.
abbrev pub is_pending : ℕ → Sandbox → Bool
is_pending profile_id s =
    is_none s.deleted_at
    && (s.is_warm_pool && (is_none s.warm_state && (s.profile_id == profile_id)))

-- `warm_rotate_at IS NOT NULL AND warm_rotate_at <= now`
abbrev pub is_rotation_due : ℕ → Option ℕ → Bool
is_rotation_due now none = false
is_rotation_due now (some t) = leb t now

abbrev pub is_worn : ℕ → ℕ → Sandbox → Bool
is_worn now profile_id s = is_claimable profile_id s && is_rotation_due now s.warm_rotate_at

-- The owner of the sandboxes in the pool, "warm-pool".
abbrev pub pool_owner : ℕ
pool_owner = 0

-- `profile.warm_pool_size - (available - rotated + pending)`, or 0
abbrev pub deficit_of : Profile → ℕ → List Sandbox → ℕ
deficit_of profile now rows =
    profile.warm_pool_size
    - ((count (is_claimable profile.id) rows - length (select (is_worn now profile.id) rows))
        + count (is_pending profile.id) rows)

abbrev pub has_pool : Profile → Bool
has_pool p = ltb 0 p.warm_pool_size

abbrev is_retiring : Option WarmState → Bool
is_retiring (some WarmState.retiring) = true
is_retiring _ = false

-- `_requeue_existing_warm_pool_sandboxes`: the start-up puts what the pool holds on the queue again.
abbrev pub is_kept : Sandbox → Bool
is_kept s = is_none s.deleted_at && (s.is_warm_pool && not (is_retiring s.warm_state))

unfoldable pub requeue_existing : WarmPoolConfig → List Sandbox → WarmupQueue → WarmupQueue
unfolding enqueue
requeue_existing config [] queue = queue
requeue_existing config (s ∷ rows) queue =
    requeue_existing config rows
      (if is_kept s then (enqueue config s.id s.owner queue).1 else queue)

module _ (rt : Runtime) (settings : Settings) (config : WarmPoolConfig) where
  -- A sandbox is enqueued once its row is there.
  abbrev pub enqueue_made : Result Sandbox → WarmupQueue → Bool × WarmupQueue
  enqueue_made (ok s) queue = (true, (enqueue config s.id s.owner queue).1)
  enqueue_made (raise e) queue = (false, queue)

  -- `_create_warm_sandbox` in its `try`: whether a sandbox was made.
  unfoldable pub try_create : Profile → WarmupQueue → M rt.Outside (Bool × WarmupQueue)
  unfolding create_warm_sandbox
  try_create profile queue = do
    made ← reify (create_warm_sandbox rt settings profile.id pool_owner)
    pure (enqueue_made made queue)

  -- `for _ in range(deficit)`, with the number made so far
  unfoldable pub replenish : ℕ → Profile → ℕ → WarmupQueue → M rt.Outside (ℕ × WarmupQueue)
  unfolding try_create
  replenish zero profile created queue = pure (created, queue)
  replenish (suc n) profile created queue = do
    (made, left) ← try_create profile queue
    replenish n profile (if made then suc created else created) left

  -- `_retire_warm_sandbox`
  unfoldable pub retire : Sandbox → M rt.Outside (Unit {0})
  unfolding delete_sandbox
  retire s = suppress (do found ← get_sandbox rt s.id s.owner; delete_sandbox rt settings found)

  -- The rotation's marks.
  unfoldable pub rotate : ℕ → ℕ → M rt.Outside (Unit {0})
  rotate now profile_id =
      modify (λ w. record w { sandboxes = update (is_worn now profile_id) as_retiring w.sandboxes })

  unfoldable pub refill : Profile → ℕ → List Sandbox → WarmupQueue → M rt.Outside (ℕ × WarmupQueue)
  unfolding replenish for_each retire
  refill profile deficit worn queue =
      if ltb 0 deficit
      then (do
        (created, left) ← replenish deficit profile 0 queue
        for_each worn retire
        pure (created, left))
      else pure (0, queue)

  -- The lines after the reconciliation.
  unfoldable pub after_reconcile : Profile → ℕ → WarmupQueue → M rt.Outside (ℕ × WarmupQueue)
  unfolding rotate refill
  after_reconcile profile now queue = do
    deficit ← gets (λ w. deficit_of profile now w.sandboxes)
    worn ← gets (λ w. select (is_worn now profile.id) w.sandboxes)
    rotate now profile.id
    refill profile deficit worn queue

  unfoldable pub maintain_profile : Profile → WarmupQueue → M rt.Outside (ℕ × WarmupQueue)
  unfolding reconcile after_reconcile
  maintain_profile profile queue = do
    now ← ask rt.utcnow
    found ← reconcile rt config profile.id queue
    after_reconcile profile now found.1

  -- `results`: what was created, by profile.
  unfoldable pub maintain_all :
      List Profile → WarmupQueue → M rt.Outside (List (ℕ × ℕ) × WarmupQueue)
  unfolding maintain_profile
  maintain_all [] queue = pure ([], queue)
  maintain_all (p ∷ ps) queue = do
    (created, left) ← maintain_profile p queue
    (results, last) ← maintain_all ps left
    pure ((p.id, created) ∷ results, last)

  unfoldable pub run_cycle : WarmupQueue → M rt.Outside (List (ℕ × ℕ) × WarmupQueue)
  unfolding maintain_all
  run_cycle queue = maintain_all (select has_pool settings.profiles) queue
