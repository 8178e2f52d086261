-- ===== src/Refill/Reconciles.antt =====
-- The reconciliation always returns: a probe that raises is not seen.
use astrbot_shipyard_neo.Base.{
  ℕ, refl, false, Option, none, some, List, [], ◌∷◌, ◌==◌, if◌then◌else◌, Bool-cases, Option-cases,
  inl, inr, select, update,
}
use astrbot_shipyard_neo.Model.{Sandbox, Session}
use astrbot_shipyard_neo.World.Runtime.{Runtime}
use astrbot_shipyard_neo.World.Effect.{World, pure, for_each}
use astrbot_shipyard_neo.World.Returns.{Returns, bind-Returns, for_each-Returns}
use astrbot_shipyard_neo.Sandbox.Warm.{is_claimable}
use astrbot_shipyard_neo.Sandbox.Lifecycle.{find_session}
use astrbot_shipyard_neo.Warmup.Queue.{WarmPoolConfig, WarmupQueue}
use astrbot_shipyard_neo.Refill.Reconcile.{
  Found, probe_rows, is_runtime_ok, is_session_runtime_healthy, note_stale, is_stale, joined,
  reset_row, reset_session, as_pending, listed, reconcile,
}

module _ (rt : Runtime) (config : WarmPoolConfig) where
  is_runtime_ok-Returns :
      (s : Option Session) (w : World rt.Outside) → Returns (is_runtime_ok rt config s) w
  unfolding is_runtime_ok is_session_runtime_healthy
  is_runtime_ok-Returns none w = (false, refl)
  is_runtime_ok-Returns (some s) w = elim (Bool-cases (listed s.containers)) [
    | inl e ↦ rw e (_, refl)
    | inr e ↦ elim (Option-cases s.container_id) [
      | inl n ↦ rw (e, n) (false, refl)
      | inr (k, n) ↦ rw (e, n) (_, refl)
    ]
  ]

  probe_rows-Returns :
      (rows : List (Sandbox × Option Session)) (f : Found) (w : World rt.Outside)
      → Returns (probe_rows rt config rows f) w
  unfolding probe_rows
  probe_rows-Returns [] f w = (f, refl)
  probe_rows-Returns ((s, session) ∷ rows) f w =
      bind-Returns (is_runtime_ok rt config session)
        (λ healthy. probe_rows rt config rows (if healthy then f else note_stale rt config s f)) w
        (is_runtime_ok-Returns session w)
        (λ healthy. probe_rows-Returns rows _ (is_runtime_ok rt config session w).1)

  reset_session-Returns :
      (s : Option Session) (w : World rt.Outside) → Returns (reset_session rt config s) w
  unfolding reset_session
  reset_session-Returns none w = (tt, refl)
  reset_session-Returns (some s) w = (tt, refl)

  reset_row-Returns : (s : Sandbox) (w : World rt.Outside) → Returns (reset_row rt config s) w
  unfolding reset_row
  reset_row-Returns s w =
      reset_session-Returns (find_session s.current_session_id w.sessions)
        (record w { sandboxes = update (λ t. t.id == s.id) as_pending w.sandboxes })

  pub reconcile-Returns :
      (p : ℕ) (queue : WarmupQueue) (w : World rt.Outside) → Returns (reconcile rt config p queue) w
  unfolding reconcile
  reconcile-Returns p queue w =
      let rows : List (Sandbox × Option Session) =
        joined rt config w.sessions (select (is_claimable p) w.sandboxes) in
      let none_yet : Found = record { stale_ids = []; requeued = 0; queue = queue } in
      bind-Returns (probe_rows rt config rows none_yet) _ w (probe_rows-Returns rows none_yet w)
        (λ found.
          let v : World rt.Outside = (probe_rows rt config rows none_yet w).1 in
          let stale : List Sandbox = select (is_stale found.stale_ids) v.sandboxes in
          bind-Returns (for_each stale (reset_row rt config))
            (λ _. pure (found.requeued, found.queue)) v
            (for_each-Returns (reset_row rt config) reset_row-Returns stale v) (λ _. (_, refl)))
