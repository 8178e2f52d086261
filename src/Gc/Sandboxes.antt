-- ===== src/Gc/Sandboxes.antt =====
-- `IdleSessionGC` and `ExpiredSandboxGC`.
use astrbot_shipyard_neo.Base.{
  ℕ, Bool, true, false, Option, none, some, ◌&&◌, not, ltb, if◌then◌else◌, is_none, select, map,
}
use astrbot_shipyard_neo.Model.{Sandbox, Cargo}
use astrbot_shipyard_neo.World.Runtime.{Runtime}
use astrbot_shipyard_neo.World.Effect.{
  M, pure, gets, ask, when, ◌>>=◌, ◌>>◌, suppress, for_each, get_sandbox_lock, cleanup_sandbox_lock,
  write_sandbox,
}
use astrbot_shipyard_neo.Cargo
use astrbot_shipyard_neo.Session.Manager.{destroy_session}
use astrbot_shipyard_neo.Sandbox.Lifecycle.{find_cargo, is_gone, locked_row, sessions_of}
use astrbot_shipyard_neo.Gc.Sweep.{GcResult, new_result, sweep}

-- `moment IS NOT NULL AND moment < now`
abbrev pub is_before : Option ℕ → ℕ → Bool
is_before none now = false
is_before (some t) now = ltb t now

abbrev pub idle_of : Option Sandbox → Option ℕ
idle_of none = none
idle_of (some s) = s.idle_expires_at

abbrev pub expiry_of : Option Sandbox → Option ℕ
expiry_of none = none
expiry_of (some s) = s.expires_at

-- The `where` clauses of the two queries.
abbrev pub is_idle : ℕ → Sandbox → Bool
is_idle now s = is_none s.deleted_at && (is_before s.idle_expires_at now && not s.is_warm_pool)

abbrev pub is_overdue : ℕ → Sandbox → Bool
is_overdue now s = is_none s.deleted_at && (is_before s.expires_at now && not s.is_warm_pool)

abbrev pub as_reclaimed : Sandbox → Sandbox
as_reclaimed s = record s { current_session_id = none; idle_expires_at = none }

abbrev pub as_expired : ℕ → Sandbox → Sandbox
as_expired now s = record s { deleted_at = some now; current_session_id = none }

module _ (rt : Runtime) where
  -- `destroy` of every session of the sandbox, where an exception is logged.
  unfoldable pub destroy_all : ℕ → M rt.Outside (Unit {0})
  unfolding for_each
  destroy_all sandbox_id = do
    sessions ← sessions_of rt sandbox_id
    for_each sessions (λ s. suppress (destroy_session rt s))

  unfoldable pub finish_reclaim : ℕ → M rt.Outside Bool
  finish_reclaim sandbox_id = do write_sandbox sandbox_id as_reclaimed; pure true

  -- The part of `IdleSessionGC._process_sandbox` after the two checks.
  unfoldable pub reclaim : ℕ → M rt.Outside Bool
  unfolding destroy_all finish_reclaim
  reclaim sandbox_id = do destroy_all sandbox_id; finish_reclaim sandbox_id

  unfoldable pub process_idle : ℕ → M rt.Outside Bool
  unfolding reclaim get_sandbox_lock
  process_idle sandbox_id = do
    found ← locked_row rt sandbox_id
    (if is_gone found then pure false else (do
      now ← ask rt.utcnow
      (if is_before (idle_of found) now then reclaim sandbox_id else pure false)))

  unfoldable pub run_idle : M rt.Outside GcResult
  unfolding process_idle sweep
  run_idle = do
    now ← ask rt.utcnow
    due ← gets (λ w. map (λ (s : Sandbox). s.id) (select (is_idle now) w.sandboxes))
    sweep (λ k. k) process_idle due (new_result 0)

  -- What `ExpiredSandboxGC` extracts of a sandbox before it processes it.
  abbrev pub Due : Type 0
  Due = ℕ × ℕ × Option ℕ

  -- `if cargo and cargo.managed: try: delete(cargo.id, owner, force=True)`
  unfoldable pub drop_managed : Option Cargo → ℕ → M rt.Outside (Unit {0})
  drop_managed none owner = pure tt
  drop_managed (some c) owner = when c.managed (suppress (Cargo.delete_cargo rt c.id owner true))

  unfoldable pub finish_expire : ℕ → ℕ → Option ℕ → M rt.Outside Bool
  unfolding drop_managed cleanup_sandbox_lock
  finish_expire sandbox_id owner cargo_id = do
    cargo ← gets (λ w. find_cargo cargo_id w.cargos)
    now ← ask rt.utcnow
    write_sandbox sandbox_id (as_expired now)
    drop_managed cargo owner
    cleanup_sandbox_lock sandbox_id
    pure true

  unfoldable pub expire : ℕ → ℕ → Option ℕ → M rt.Outside Bool
  unfolding destroy_all finish_expire
  expire sandbox_id owner cargo_id = do
    destroy_all sandbox_id
    finish_expire sandbox_id owner cargo_id

  unfoldable pub process_expired : Due → M rt.Outside Bool
  unfolding expire get_sandbox_lock
  process_expired (sandbox_id, owner, cargo_id) = do
    found ← locked_row rt sandbox_id
    (if is_gone found then pure false else (do
      now ← ask rt.utcnow
      (if is_before (expiry_of found) now then expire sandbox_id owner cargo_id else pure false)))

  unfoldable pub run_expired : M rt.Outside GcResult
  unfolding process_expired sweep
  run_expired = do
    now ← ask rt.utcnow
    due ← gets (λ w.
        map (λ (s : Sandbox). (s.id, s.owner, s.cargo_id)) (select (is_overdue now) w.sandboxes))
    sweep (λ (d : Due). d.0) process_expired due (new_result 1)
