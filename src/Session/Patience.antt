-- ===== src/Session/Patience.antt =====
-- The readiness polls end: with enough fuel they return because the runtime was seen healthy, or
-- raise because the time is up.
use Prim.Native.String.{String}
use astrbot_shipyard_neo.Base.{
  ℕ, zero, suc, ◌+◌, ◌-◌, ◌*◌, ◌≤◌, ◌<◌, min, ◌≡◌, refl, true, false, Bool-cases, inl, inr, leb,
  arith,
}
use astrbot_shipyard_neo.World.Runtime.{Runtime, Error, Result, ok, raise}
use astrbot_shipyard_neo.World.Effect.{World}
use astrbot_shipyard_neo.World.Post.{Post}
use astrbot_shipyard_neo.Session.Wait.{
  is_healthy, back_off, wait_loop, wait_for_ready, max_wait, initial_interval, max_interval,
}

-- The loop clock of asyncio: `loop_time` reads it, it never goes back, and a sleep lasts at least as
-- long as it is asked to.
pub record IsClock (rt : Runtime) (clock : rt.Outside → ℕ) : Type 0 where
  pub reads : (o : rt.Outside) → (rt.loop_time o).0 ≡ clock o
  pub reads_forward : (o : rt.Outside) → clock o ≤ clock (rt.loop_time o).1
  pub sleeps : (d : ℕ) (o : rt.Outside) → clock o + d ≤ clock (rt.sleep d o)
  pub polls_forward : (k : ℕ) (o : rt.Outside) → clock o ≤ clock (rt.health k o).1

module _ (rt : Runtime) (clock : rt.Outside → ℕ) (c : IsClock rt clock) (endpoint : ℕ)
    (kind : String) where
  -- A poll that returns has seen a healthy answer; one that raises has run out of time.
  abbrev pub Waits : Result (Unit {0}) → World rt.Outside → Type 0
  Waits (ok u) w = (o : rt.Outside) × (is_healthy kind (rt.health endpoint o).0 ≡ true)
  Waits (raise e) w = e ≡ Error.session_not_ready

  -- Time is left for `f` rounds more.
  abbrev HasTime : ℕ → ℕ → World rt.Outside → Type 0
  HasTime f start w =
      (start ≤ clock w.outside) × (max_wait ≤ (clock w.outside - start) + initial_interval * f)

  -- A round that sleeps leaves time for one round less.
  slept :
      (g start interval : ℕ) (w : World rt.Outside)
      → initial_interval ≤ interval
      → HasTime (suc g) start w
      → leb max_wait ((rt.loop_time w.outside).0 - start) ≡ false
      → HasTime g start (record w {
        outside =
            rt.sleep
              (min interval (max_wait - ((rt.loop_time w.outside).0 - start)))
              (rt.loop_time w.outside).1;
      })
  slept g start interval w slow time e =
      let now : ℕ = (rt.loop_time w.outside).0 in
      let o : rt.Outside = (rt.loop_time w.outside).1 in
      let below : now - start < max_wait = ground arith in
      omega (
        arith,
        c.reads w.outside,
        c.reads_forward w.outside,
        c.sleeps (min interval (max_wait - (now - start))) o,
      )

  back_off_last :
      (start interval : ℕ) (next : ℕ → World rt.Outside → Result (Unit {0}) × World rt.Outside)
      (w : World rt.Outside)
      → HasTime 0 start w
      → Post Waits (back_off rt next start interval w)
  unfolding back_off
  back_off_last start interval next w time =
      let over : leb max_wait ((rt.loop_time w.outside).0 - start) ≡ true =
        ground (arith, c.reads w.outside) in
      rw over refl

  back_off_more :
      (g start interval : ℕ) (next : ℕ → World rt.Outside → Result (Unit {0}) × World rt.Outside)
      (w : World rt.Outside)
      → initial_interval ≤ interval
      → HasTime (suc g) start w
      → ((i : ℕ) (v : World rt.Outside)
          → initial_interval ≤ i
          → HasTime g start v
          → Post Waits (next i v))
      → Post Waits (back_off rt next start interval w)
  unfolding back_off
  back_off_more g start interval next w slow time go_on =
      elim (Bool-cases (leb max_wait ((rt.loop_time w.outside).0 - start))) [
        | inl e ↦ rw e refl
        | inr e ↦ rw e (
            go_on (min (interval * 2) max_interval) _ (omega arith)
              (slept g start interval w slow time e))
      ]

  polled :
      (f start : ℕ) (w : World rt.Outside)
      → HasTime f start w
      → HasTime f start (record w { outside = (rt.health endpoint w.outside).1 })
  polled f start w time = omega (arith, c.polls_forward endpoint w.outside)

  wait_loop-Waits :
      (f start interval : ℕ) (w : World rt.Outside)
      → initial_interval ≤ interval
      → HasTime f start w
      → Post Waits (wait_loop rt (suc f) endpoint kind start interval w)
  unfolding wait_loop
  wait_loop-Waits zero start interval w slow time =
      elim (Bool-cases (is_healthy kind (rt.health endpoint w.outside).0)) [
        | inl e ↦ rw e (w.outside, e)
        | inr e ↦ rw e (back_off_last start interval _ _ (polled 0 start w time))
      ]
  wait_loop-Waits (suc g) start interval w slow time =
      elim (Bool-cases (is_healthy kind (rt.health endpoint w.outside).0)) [
        | inl e ↦ rw e (w.outside, e)
        | inr e ↦ rw e (
            back_off_more g start interval (wait_loop rt (suc g) endpoint kind start) _ slow
              (polled (suc g) start w time) (λ i v. wait_loop-Waits g start i v))
      ]

  -- The poll for one runtime never runs out of its rounds: it returns only after an answer that is
  -- healthy for its kind of runtime, and the one exception that it raises is `session_not_ready`.
  pub wait_for_ready-Waits : (w : World rt.Outside) → Post Waits (wait_for_ready rt endpoint kind w)
  unfolding wait_for_ready
  wait_for_ready-Waits w =
      wait_loop-Waits 240 (rt.loop_time w.outside).0 initial_interval
        (record w { outside = (rt.loop_time w.outside).1 }) (omega arith)
        (omega (arith, c.reads w.outside, c.reads_forward w.outside))
