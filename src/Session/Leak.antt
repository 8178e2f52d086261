-- ===== src/Session/Leak.antt =====
-- What `stop` leaves for a later `destroy`: it forgets the containers of the row, all but the first
-- container's id.
use astrbot_shipyard_neo.Base.{
  All-weaken, select, ℕ, ◌≡◌, refl, none, some, ◌==◌, arith, update, ◌∙◌,
}
use astrbot_shipyard_neo.Model.{Session, SessionStatus}
use astrbot_shipyard_neo.World.Runtime.{Runtime, Result, ok, raise}
use astrbot_shipyard_neo.World.Effect.{World, call}
use astrbot_shipyard_neo.World.Post.{Post, bind-Post, Post-elim}
use astrbot_shipyard_neo.Session.Manager.{
  stop_session, stop_runtime, finish_stop, stopping_of, destroy_runtime,
}
use astrbot_shipyard_neo.Session.Settled.{Rows, write_session-Rows}

module _ (rt : Runtime) where
  -- The row after a stop: nothing runs, and no containers are listed.
  abbrev IsStopped : Session → Session → Type 0
  IsStopped s t =
      (t.observed_state ≡ SessionStatus.stopped)
      × (t.endpoint ≡ none)
      × (t.containers ≡ none)
      × (t.container_id ≡ s.container_id)

  abbrev Stops : Session → Result (Unit {0}) → World rt.Outside → Type 0
  Stops s (ok u) w = Rows s.id (IsStopped s) w.sessions
  Stops s (raise e) w = Unit

  -- A stop that returns leaves every row with the id stopped, without endpoint or containers, and
  -- with the id of its first container.
  pub stop_session-Stops :
      (s : Session) (w : World rt.Outside) → Post (Stops s) (stop_session rt s w)
  unfolding stop_session
  stop_session-Stops s w =
      bind-Post (Stops s) (stop_runtime rt (stopping_of s)) (λ _. finish_stop rt (stopping_of s))
        before
        (λ u e.
          write_session-Rows (IsStopped s)
            (record (stopping_of s) {
              observed_state = SessionStatus.stopped;
              endpoint = none;
              containers = none;
              last_observed_at = some _;
            })
            _ (refl, refl, refl, refl))
        (λ e r. tt)
    where
      before : World rt.Outside
      before = record w { sessions = update (λ t. t.id == s.id) (λ _. stopping_of s) w.sessions }

  destroy_stopped :
      (t : Session) (p : ℕ) (v : World rt.Outside)
      → t.containers ≡ none
      → t.container_id ≡ some p
      → destroy_runtime rt t v ≡ call (rt.destroy p) v
  unfolding destroy_runtime
  destroy_stopped t p v h k = ground arith

-- After a stop that returns, a destroy hands the driver the first container alone, however many
-- containers the session had: the others and the network are left behind.
pub stop_then_destroy :
    (rt : Runtime) (s : Session) (p : ℕ) (w : World rt.Outside)
    → s.container_id ≡ some p
    → (stop_session rt s w).0 ≡ ok tt
    → Rows s.id
        (λ t. (v : World rt.Outside) → destroy_runtime rt t v ≡ call (rt.destroy p) v)
        (stop_session rt s w).1.sessions
stop_then_destroy rt s p w first done =
    All-weaken (select (λ t. t.id == s.id) (stop_session rt s w).1.sessions)
      (λ t h v. destroy_stopped rt t p v h.2 (h.3 ∙ first))
      (Post-elim (Stops rt s) (stop_session rt s w) (stop_session-Stops rt s w) done)
