-- ===== src/Refill/Bound.antt =====
-- How many sandboxes a pool has after its maintenance.
use astrbot_shipyard_neo.Base.{
  ℕ, zero, suc, ◌+◌, ◌-◌, ◌≤◌, ◌≡◌, max, List, arith, Bool-cases, inl, inr, select, ltb,
}
use astrbot_shipyard_neo.Model.{Sandbox, Profile, Settings}
use astrbot_shipyard_neo.World.Runtime.{Runtime, Result, ok, raise}
use astrbot_shipyard_neo.World.Effect.{World, for_each, proceed}
use astrbot_shipyard_neo.World.Keeps.{>>=-Keeps, for_each-Keeps, proceed-Keeps}
use astrbot_shipyard_neo.Cargo
use astrbot_shipyard_neo.Sandbox.Create.{create_warm_sandbox}
use astrbot_shipyard_neo.Warmup.Queue.{WarmPoolConfig, WarmupQueue}
use astrbot_shipyard_neo.Refill.Reconcile.{reconcile}
use astrbot_shipyard_neo.Refill.Kept.{
  supply, rotated, supply-rotated, worn-claimable, IsWithin, retire-IsWithin,
}
use astrbot_shipyard_neo.Refill.Maintain.{
  is_worn, deficit_of, try_create, pool_owner, replenish, retire, rotate, refill, after_reconcile,
  maintain_profile,
}

-- The numbers of the source and of the rotated rows.
pub deficit-rotated :
    (profile : Profile) (now : ℕ) (rows : List Sandbox)
    → deficit_of profile now rows
      ≡ profile.warm_pool_size - supply profile.id (rotated now profile.id rows)
deficit-rotated profile now rows =
    omega (arith, supply-rotated now profile.id rows, worn-claimable now profile.id rows)

module _ (rt : Runtime) (settings : Settings) (config : WarmPoolConfig) where
  create-supply :
      (p : ℕ) (profile : Profile) (w : World rt.Outside)
      → supply p (create_warm_sandbox rt settings profile.id pool_owner w).1.sandboxes
        ≤ supply p w.sandboxes + 1
  unfolding create_warm_sandbox Cargo.create
  create-supply p profile w = ground arith

  replenish-supply :
      (p k : ℕ) (profile : Profile) (created : ℕ) (queue : WarmupQueue) (w : World rt.Outside)
      → supply p (replenish rt settings config k profile created queue w).1.sandboxes
        ≤ supply p w.sandboxes + k
  unfolding replenish try_create
  replenish-supply p zero profile created queue w = omega arith
  replenish-supply p (suc k) profile created queue w = omega (
    arith,
    create-supply p profile w,
    replenish-supply p k profile _ _ (create_warm_sandbox rt settings profile.id pool_owner w).1,
  )

  refill-supply :
      (profile : Profile) (deficit n : ℕ) (worn : List Sandbox) (queue : WarmupQueue)
      (w : World rt.Outside)
      → supply profile.id w.sandboxes + deficit ≤ n
      → supply profile.id (refill rt settings config profile deficit worn queue w).1.sandboxes ≤ n
  unfolding refill
  refill-supply profile deficit n worn queue w h = elim (Bool-cases (ltb 0 deficit)) [
    | inl e ↦ rw e (
        proceed-Keeps (IsWithin rt profile.id n) _
          (replenish rt settings config deficit profile 0 queue w)
          (λ x.
            >>=-Keeps (IsWithin rt profile.id n) (for_each worn (retire rt settings config)) _
              (for_each-Keeps (IsWithin rt profile.id n) worn (retire rt settings config)
                (λ s. retire-IsWithin rt profile.id n settings config s))
              (λ _ v hv. hv))
          (omega (arith, h, replenish-supply profile.id deficit profile 0 queue w)))
    | inr e ↦ rw e (omega (arith, h))
  ]

  -- The world once the maintenance has reconciled the pool with the runtimes.
  abbrev pub reconciled : Profile → WarmupQueue → World rt.Outside → World rt.Outside
  reconciled profile queue w =
      (reconcile rt config profile.id queue (record w { outside = (rt.utcnow w.outside).1 })).1

  maintained :
      (profile : Profile) (now n : ℕ) (x : Result (ℕ × WarmupQueue) × World rt.Outside)
      → max profile.warm_pool_size (supply profile.id x.1.sandboxes) ≤ n
      → supply profile.id
          (proceed
            (λ (found : ℕ × WarmupQueue). after_reconcile rt settings config profile now found.1)
            x).1.sandboxes
        ≤ n
  unfolding after_reconcile rotate
  maintained profile now n (raise e, w) h = omega (arith, h)
  maintained profile now n (ok (requeued, left), w) h =
      refill-supply profile (deficit_of profile now w.sandboxes) n
        (select (is_worn now profile.id) w.sandboxes) left
        (record w { sandboxes = rotated now profile.id w.sandboxes })
        (omega (
          arith,
          h,
          deficit-rotated profile now w.sandboxes,
          supply-rotated now profile.id w.sandboxes,
        ))

  -- After the maintenance of a profile, its pool has at most the sandboxes that the profile asks for, or
  -- the ones that it had once it was reconciled with the runtimes, whichever are more.
  pub maintain_profile-supply :
      (profile : Profile) (queue : WarmupQueue) (w : World rt.Outside)
      → supply profile.id (maintain_profile rt settings config profile queue w).1.sandboxes
        ≤ max profile.warm_pool_size (supply profile.id (reconciled profile queue w).sandboxes)
  unfolding maintain_profile
  maintain_profile-supply profile queue w =
      maintained profile (rt.utcnow w.outside).0 _
        (reconcile rt config profile.id queue (record w { outside = (rt.utcnow w.outside).1 }))
        (omega arith)
