-- ===== src/Gc/Reclaim.antt =====
-- What the two sandbox tasks do to one sandbox, whatever the driver answers.
use astrbot_shipyard_neo.Base.{
  ℕ, ◌≡◌, refl, ◌∙◌, ap, Bool, true, Option, List, [], ◌∷◌, ◌==◌, ◌&&◌, not, arith, if◌then◌else◌,
  Bool-cases, inl, inr, ◌⊎◌, select, first, update,
}
use astrbot_shipyard_neo.Model.{Sandbox, Session}
use astrbot_shipyard_neo.World.Runtime.{Runtime, Result, ok}
use astrbot_shipyard_neo.World.Effect.{World, suppress, for_each, get_sandbox_lock}
use astrbot_shipyard_neo.World.Post.{bind_of_ok}
use astrbot_shipyard_neo.Session.Manager.{destroy_session}
use astrbot_shipyard_neo.Sandbox.Lifecycle.{is_gone, locked_row}
use astrbot_shipyard_neo.Gc.Sandboxes.{
  is_before, idle_of, as_reclaimed, finish_reclaim, destroy_all, reclaim, process_idle,
}

-- What the check under the lock asks for: the row is there, not deleted, and its moment is past.
abbrev pub is_due : Option Sandbox → Option ℕ → ℕ → Bool
is_due found moment now = not (is_gone found) && is_before moment now

module _ (rt : Runtime) where
  abbrev pub row_of : ℕ → World rt.Outside → Option Sandbox
  row_of k w = first (λ s. s.id == k) w.sandboxes

  -- Only the sessions and the world outside may differ.
  abbrev Spares : World rt.Outside → World rt.Outside → Type 0
  Spares w v = (v.sandboxes ≡ w.sandboxes) × (v.cargos ≡ w.cargos)

  pub destroy-Spares : (s : Session) (w : World rt.Outside) → Spares w (destroy_session rt s w).1
  unfolding destroy_session
  destroy-Spares s w = ground arith

  destroy_each-Spares :
      (ss : List Session) (w : World rt.Outside)
      → ((for_each ss (λ s. suppress (destroy_session rt s)) w).0 ≡ ok tt)
        × Spares w (for_each ss (λ s. suppress (destroy_session rt s)) w).1
  unfolding for_each
  destroy_each-Spares [] w = (refl, (refl, refl))
  destroy_each-Spares (s ∷ ss) w =
      let (done, (sandboxes, cargos)) = destroy_each-Spares ss (destroy_session rt s w).1 in
      let (same_sandboxes, same_cargos) = destroy-Spares s w in
      (done, (sandboxes ∙ same_sandboxes, cargos ∙ same_cargos))

  destroy_all-Spares :
      (k : ℕ) (w : World rt.Outside)
      → ((destroy_all rt k w).0 ≡ ok tt) × Spares w (destroy_all rt k w).1
  unfolding destroy_all
  destroy_all-Spares k w = destroy_each-Spares (select (λ s. s.sandbox_id == k) w.sessions) w

  reclaim_lem :
      (k : ℕ) (w : World rt.Outside)
      → ((reclaim rt k w).0 ≡ ok true)
        × ((reclaim rt k w).1.sandboxes ≡ update (λ s. s.id == k) as_reclaimed w.sandboxes)
        × ((reclaim rt k w).1.cargos ≡ w.cargos)
  unfolding reclaim
  reclaim_lem k w =
      let (done, (sandboxes, cargos)) = destroy_all-Spares k w in
      let run : reclaim rt k w ≡ finish_reclaim rt k (destroy_all rt k w).1 =
        bind_of_ok (destroy_all rt k) (λ _. finish_reclaim rt k) w done in
      rw run (refl, ap (update (λ s. s.id == k) as_reclaimed) sandboxes, cargos)

  -- The end of the idle task's work on a sandbox, by whether the sandbox was due.
  abbrev pub IdleVerdict : ℕ → World rt.Outside → Bool → Result Bool × World rt.Outside → Type 0
  IdleVerdict k w due x =
      (x.0 ≡ ok due)
      × (x.1.sandboxes
          ≡ (if due then update (λ s. s.id == k) as_reclaimed w.sandboxes else w.sandboxes))
      × (x.1.cargos ≡ w.cargos)
      × ((due ≡ true) ⊎ (x.1.sessions ≡ w.sessions))

  locked : ℕ → World rt.Outside → World rt.Outside
  locked k w = (locked_row rt k w).1

  -- Under the lock: if the sandbox is there, not deleted, and idle since before now, the idle task
  -- reclaims it, whatever the driver answers: its row loses its session and its idle moment, and every
  -- other row and every cargo stays. If not, the task reports it as skipped, and no sandbox, no session
  -- and no cargo changes.
  pub process_idle_verdict :
      (k : ℕ) (w : World rt.Outside)
      → IdleVerdict k w
          (is_due (row_of k w) (idle_of (row_of k w)) (rt.utcnow w.outside).0)
          (process_idle rt k w)
  unfolding process_idle get_sandbox_lock locked
  process_idle_verdict k w = elim (Bool-cases (is_gone (row_of k w))) [
    | inl gone ↦ rw gone (refl, refl, refl, inr refl)
    | inr here ↦ elim (Bool-cases (is_before (idle_of (row_of k w)) (rt.utcnow w.outside).0)) [
      | inl past ↦
          let (result, sandboxes, cargos) =
            reclaim_lem k (record (locked k w) { outside = (rt.utcnow w.outside).1 }) in
          rw (here, past) (result, sandboxes, cargos, inl refl)
      | inr early ↦ rw (here, early) (refl, refl, refl, inr refl)
    ]
  ]
