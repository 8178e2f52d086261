-- ===== src/Model/Status.antt =====
-- `Sandbox.is_expired` and `Sandbox.compute_status` of pkgs/bay/app/models/sandbox.py.
use astrbot_shipyard_neo.Base.{
  ℕ, ◌≡◌, refl, ◌↔◌, Bool, false, Option, none, some, ltb, if◌then◌else◌, is_some, arith,
}
use astrbot_shipyard_neo.Model.Rows.{Sandbox, Session, SandboxStatus, SessionStatus}

-- `t is not None and now > t`
abbrev pub is_past : Option ℕ → ℕ → Bool
is_past none now = false
is_past (some t) now = ltb t now

-- The status that a session's observed state stands for.
abbrev session_view : SessionStatus → SandboxStatus
session_view SessionStatus.running = SandboxStatus.ready
session_view SessionStatus.pending = SandboxStatus.starting
session_view SessionStatus.starting = SandboxStatus.starting
session_view SessionStatus.failed = SandboxStatus.failed
session_view _ = SandboxStatus.idle

unfoldable pub compute_status : Sandbox → ℕ → Option Session → SandboxStatus
compute_status sandbox now session =
    if is_some sandbox.deleted_at
    then SandboxStatus.deleted
    else if is_past sandbox.expires_at now
    then SandboxStatus.expired
    else elim session [ none ↦ SandboxStatus.idle | some s ↦ session_view s.observed_state ]

-- A sandbox reads as ready exactly when it is not deleted, its time has not passed, and its current
-- session is observed running.
pub compute_status-eq-ready_iff :
    (sandbox : Sandbox) (now : ℕ) (session : Option Session)
    → (compute_status sandbox now session ≡ SandboxStatus.ready) ↔ (
        (sandbox.deleted_at ≡ none)
        × (is_past sandbox.expires_at now ≡ false)
        × ((s : Session) × (session ≡ some s) × (s.observed_state ≡ SessionStatus.running)))
unfolding compute_status
compute_status-eq-ready_iff sandbox now none = (λ h. ground arith, λ h. absurd (ground arith))
compute_status-eq-ready_iff sandbox now (some s) =
    (λ h. (ground arith, ground arith, (s, refl, ground arith)), λ h. ground arith)
