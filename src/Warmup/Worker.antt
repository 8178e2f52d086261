-- ===== src/Warmup/Worker.antt =====
-- `WarmupQueue._process_task`: the work of one task, on the managers' world.
use astrbot_shipyard_neo.Base.{ℕ, Option, none, some, ◌==◌, ◌&&◌, is_none, first}
use astrbot_shipyard_neo.Model.{Sandbox, Profile, Settings, get_profile}
use astrbot_shipyard_neo.World.Runtime.{Runtime, Error}
use astrbot_shipyard_neo.World.Effect.{M, pure, gets, or_raise, when, ◌>>=◌, ◌>>◌, catch}
use astrbot_shipyard_neo.Sandbox.Lifecycle.{ensure_running}
use astrbot_shipyard_neo.Sandbox.Warm.{is_live_row, mark_warm_available}
use astrbot_shipyard_neo.Warmup.Queue.{WarmupTask, Outcome}

-- `profile.warm_rotate_ttl if profile else 1800`
abbrev rotate_ttl : Option Profile → ℕ
rotate_ttl none = 1800
rotate_ttl (some p) = p.warm_rotate_ttl

module _ (rt : Runtime) where
  -- The row's attributes after the warm-up: the object's row is read again.
  unfoldable pub warm_up : Settings → Sandbox → M rt.Outside Outcome
  unfolding mark_warm_available
  warm_up settings sandbox = do
    running ← ensure_running rt settings sandbox
    found ← gets (λ w. first (λ s. s.id == sandbox.id) w.sandboxes)
    row ← or_raise found Error.lookup
    when (row.is_warm_pool && is_none row.warm_state)
        (mark_warm_available rt row.id (rotate_ttl (get_profile settings.profiles row.profile_id)))
    pure Outcome.succeeded

  abbrev warm_up_found : Settings → Option Sandbox → M rt.Outside Outcome
  warm_up_found settings none = pure Outcome.skipped
  warm_up_found settings (some sandbox) = warm_up settings sandbox

  unfoldable pub process_task : Settings → WarmupTask → M rt.Outside Outcome
  unfolding warm_up
  process_task settings task =
      catch
        (do
          sandbox ← gets (λ w. first (is_live_row task.sandbox_id) w.sandboxes)
          warm_up_found settings sandbox)
        (λ e. pure Outcome.failed)
