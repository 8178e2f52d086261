-- ===== src/Refill/Fills.antt =====
-- The maintenance makes what is missing.
use astrbot_shipyard_neo.Base.{
  ℕ, zero, suc, ◌+◌, ◌-◌, ◌≡◌, refl, ◌∙◌, ap, true, none, some, List, arith, Bool-cases, inl, inr,
  select, ltb, is_none, count,
}
use astrbot_shipyard_neo.Model.{Sandbox, Profile, Settings, get_profile}
use astrbot_shipyard_neo.World.Runtime.{Runtime, Error, Result, ok, raise}
use astrbot_shipyard_neo.World.Effect.{World, M, pure, raise_if, ◌>>◌, for_each}
use astrbot_shipyard_neo.World.Returns.{is_ok, value_of, Returns, bind-Returns, for_each-Returns}
use astrbot_shipyard_neo.World.Post.{bind_of_ok}
use astrbot_shipyard_neo.World.Keeps.{for_each-Keeps}
use astrbot_shipyard_neo.Cargo
use astrbot_shipyard_neo.Sandbox.Create.{create_warm_sandbox, cargo_for}
use astrbot_shipyard_neo.Warmup.Queue.{WarmPoolConfig, WarmupQueue}
use astrbot_shipyard_neo.Refill.Reconcile.{reconcile}
use astrbot_shipyard_neo.Refill.Kept.{
  supply, rotated, retire-Holds, is_made, made-rotated, made-IsLasting,
}
use astrbot_shipyard_neo.Refill.Bound.{deficit-rotated, reconciled}
use astrbot_shipyard_neo.Refill.Maintain.{
  is_worn, deficit_of, try_create, pool_owner, enqueue_made, replenish, retire, rotate, refill,
  after_reconcile, maintain_profile,
}
use astrbot_shipyard_neo.Refill.Reconciles.{reconcile-Returns}

retire-Returns :
    (rt : Runtime) (settings : Settings) (config : WarmPoolConfig) (s : Sandbox)
    (w : World rt.Outside)
    → Returns (retire rt settings config s) w
unfolding retire
retire-Returns rt settings config s w = (tt, refl)

module _ (rt : Runtime) (settings : Settings) (config : WarmPoolConfig) (profile : Profile) where
  module _ {q : Profile} (known : get_profile settings.profiles profile.id ≡ some q)
      (volumes : (k : ℕ) (o : rt.Outside) → is_ok (rt.create_volume k o).0 ≡ true) where
    cargo_for-Returns :
        (k : ℕ) (w : World rt.Outside) → Returns (cargo_for rt settings none pool_owner k) w
    unfolding Cargo.create
    cargo_for-Returns k w =
        let (_, e) =
          value_of (rt.create_volume (rt.uuid w.outside).0 (rt.uuid w.outside).1).0
            (volumes (rt.uuid w.outside).0 (rt.uuid w.outside).1) in
        rw e (_, refl)

    create_returns :
        (w : World rt.Outside)
        → is_ok (create_warm_sandbox rt settings profile.id pool_owner w).0 ≡ true
    unfolding create_warm_sandbox
    create_returns w =
        let v : World rt.Outside = record w { outside = (rt.uuid w.outside).1 } in
        let (_, done) =
          bind-Returns
            (raise_if (is_none (get_profile settings.profiles profile.id)) Error.validation) _ v
            (rw known (tt, refl))
            (λ _.
              bind-Returns (cargo_for rt settings none pool_owner (rt.uuid w.outside).0) _ _
                (cargo_for-Returns (rt.uuid w.outside).0 _) (λ _. (_, refl))) in
        ap is_ok done

    create-made :
        (w : World rt.Outside)
        → count
            (is_made profile.id)
            (create_warm_sandbox rt settings profile.id pool_owner w).1.sandboxes
          ≡ suc (count (is_made profile.id) w.sandboxes)
    unfolding create_warm_sandbox Cargo.create
    create-made w =
        let id_made = rt.uuid w.outside in
        let cargo_id = rt.uuid id_made.1 in
        let (_, e) =
          value_of (rt.create_volume cargo_id.0 cargo_id.1).0 (volumes cargo_id.0 cargo_id.1) in
        rw (known, e) ground arith

    enqueued :
        (made : Result Sandbox) (queue : WarmupQueue)
        → is_ok made ≡ true
        → (enqueue_made rt settings config made queue).0 ≡ true
    enqueued (ok s) queue h = refl
    enqueued (raise e) queue h = cc

    replenish_creates :
        (k created : ℕ) (queue : WarmupQueue) (w : World rt.Outside)
        → (x : WarmupQueue) × ((replenish rt settings config k profile created queue w).0
            ≡ ok (created + k, x))
          × (count
                (is_made profile.id)
                (replenish rt settings config k profile created queue w).1.sandboxes
              ≡ count (is_made profile.id) w.sandboxes + k)
    unfolding replenish try_create
    replenish_creates zero created queue w =
        (queue, ap (λ n. ok (n, queue)) (omega arith), omega arith)
    replenish_creates (suc k) created queue w =
        let v = create_warm_sandbox rt settings profile.id pool_owner w in
        let made : (enqueue_made rt settings config v.0 queue).0 ≡ true =
          enqueued v.0 queue (create_returns w) in
        let (x, last, rows) =
          replenish_creates k (suc created) (enqueue_made rt settings config v.0 queue).1 v.1 in
        rw made (x, last ∙ ap (λ n. ok (n, x)) (omega arith), omega (arith, rows, create-made w))

    refill_creates :
        (deficit : ℕ) (worn : List Sandbox) (queue : WarmupQueue) (w : World rt.Outside)
        → (x : WarmupQueue) × ((refill rt settings config profile deficit worn queue w).0
            ≡ ok (deficit, x))
          × (count
                (is_made profile.id)
                (refill rt settings config profile deficit worn queue w).1.sandboxes
              ≡ count (is_made profile.id) w.sandboxes + deficit)
    unfolding refill
    refill_creates deficit worn queue w = elim (Bool-cases (ltb 0 deficit)) [
      | inl e ↦
          let (x, counted, rows) = replenish_creates deficit 0 queue w in
          let made = replenish rt settings config deficit profile 0 queue w in
          let done : made.0 ≡ ok (deficit, x) = counted ∙ ap (λ n. ok (n, x)) (omega arith) in
          let (_, all) =
            for_each-Returns (retire rt settings config) (retire-Returns rt settings config) worn
              made.1 in
          let run =
            bind_of_ok (replenish rt settings config deficit profile 0 queue)
              (λ z. for_each worn (retire rt settings config) >> pure (z.0, z.1)) w done
            ∙ bind_of_ok (for_each worn (retire rt settings config)) (λ _. pure (deficit, x)) made.1
                all in
          let n : ℕ = count (is_made profile.id) w.sandboxes + deficit in
          rw e (
            x,
            ap (λ y. y.0) run,
            ap (λ y. count (is_made profile.id) y.1.sandboxes) run
                ∙ for_each-Keeps (λ v. count (is_made profile.id) v.sandboxes ≡ n) worn
                    (retire rt settings config)
                    (λ s.
                      retire-Holds rt (λ v. count (is_made profile.id) v ≡ n)
                        (made-IsLasting profile.id n) settings config s)
                    made.1 rows,
          )
      | inr e ↦ rw e (queue, ap (λ n. ok (n, queue)) (ground arith), ground arith)
    ]

    after_reconcile_creates :
        (now : ℕ) (queue : WarmupQueue) (v : World rt.Outside)
        → (x : WarmupQueue) × ((after_reconcile rt settings config profile now queue v).0
            ≡ ok (
              profile.warm_pool_size - supply profile.id (rotated now profile.id v.sandboxes),
              x,
            ))
          × (count
                (is_made profile.id)
                (after_reconcile rt settings config profile now queue v).1.sandboxes
              ≡ count (is_made profile.id) v.sandboxes
                + (profile.warm_pool_size - supply profile.id (rotated now profile.id v.sandboxes)))
    unfolding after_reconcile rotate refill
    after_reconcile_creates now queue v =
        let (x, done, rows) =
          refill_creates (deficit_of profile now v.sandboxes)
            (select (is_worn now profile.id) v.sandboxes) queue
            (record v { sandboxes = rotated now profile.id v.sandboxes }) in
        let lacking = deficit-rotated profile now v.sandboxes in
        (
          x,
          done ∙ ap (λ n. ok (n, x)) lacking,
          omega (arith, rows, lacking, made-rotated now profile.id v.sandboxes),
        )

module _ (rt : Runtime) (settings : Settings) (config : WarmPoolConfig) (profile : Profile)
    (queue : WarmupQueue) (w : World rt.Outside) where
  abbrev now_of : ℕ
  now_of = (rt.utcnow w.outside).0

  abbrev reconciliation : M rt.Outside (ℕ × WarmupQueue)
  reconciliation _ =
      reconcile rt config profile.id queue (record w { outside = (rt.utcnow w.outside).1 })

  -- The pool that is left once the worn sandboxes have been marked.
  abbrev pub left_in_pool : List Sandbox
  left_in_pool = rotated now_of profile.id (reconciled rt settings config profile queue w).sandboxes

  -- When the profile is configured and volumes can be made, the maintenance makes exactly as many
  -- sandboxes as the pool lacks once it is reconciled and its worn ones are marked: it reports that
  -- number, and the profile's rows in the pool, deleted or not, have become that many more.
  pub maintain_profile_creates :
      {q : Profile}
      → get_profile settings.profiles profile.id ≡ some q
      → ((k : ℕ) (o : rt.Outside) → is_ok (rt.create_volume k o).0 ≡ true)
      → (x : WarmupQueue) × ((maintain_profile rt settings config profile queue w).0
          ≡ ok (profile.warm_pool_size - supply profile.id left_in_pool, x))
        × (count
              (is_made profile.id)
              (maintain_profile rt settings config profile queue w).1.sandboxes
            ≡ count (is_made profile.id) (reconciled rt settings config profile queue w).sandboxes
              + (profile.warm_pool_size - supply profile.id left_in_pool))
  unfolding maintain_profile
  maintain_profile_creates known volumes =
      let ((requeued, left), done) =
        reconcile-Returns rt config profile.id queue
          (record w { outside = (rt.utcnow w.outside).1 }) in
      let (x, last, rows) =
        after_reconcile_creates rt settings config profile known volumes now_of left
          (reconciled rt settings config profile queue w) in
      let run =
        bind_of_ok (reconcile rt config profile.id queue)
          (λ found. after_reconcile rt settings config profile now_of found.1)
          (record w { outside = (rt.utcnow w.outside).1 }) done in
      (x, ap (λ y. y.0) run ∙ last, ap (λ y. count (is_made profile.id) y.1.sandboxes) run ∙ rows)
