-- ===== src/Gull/Health.antt =====
-- `health` and `delete_session`, with `destroy_session` of pkgs/gull/app/session.py.
use astrbot_shipyard_neo.Base.{Bool, true, false, [], ◌∷◌, ◌&&◌, ◌||◌, if◌then◌else◌, none}
use astrbot_shipyard_neo.Model.{seconds}
use astrbot_shipyard_neo.World.Runtime.{ok}
use astrbot_shipyard_neo.Path.Split.{Text}
use astrbot_shipyard_neo.Texts.{codes, starts_with}
use astrbot_shipyard_neo.Gull.Exec.{
  Machine, Settings, G, ◌>>=◌, pure, ask, is_zero, run_agent_browser, execute_browser,
}

pub data HealthStatus : Type 0 where
  healthy degraded unhealthy : HealthStatus

-- The version is left out.
pub record HealthResponse : Type 0 where
  pub status : HealthStatus
  pub browser_active : Bool
  pub browser_ready : Bool
  pub session : Text

-- `part in text`
abbrev pub contains : Text → Text → Bool
contains part [] = starts_with part []
contains part (c ∷ cs) = starts_with part (c ∷ cs) || contains part cs

module _ (m : Machine) (c : Settings) where
  abbrev shared_health : G m.Outside HealthResponse
  shared_health = do
    chromium_ok ← ask m.check_chromium_health
    agent_ok ← ask m.has_agent_browser
    pure (record {
      status = if chromium_ok && agent_ok then HealthStatus.healthy else HealthStatus.degraded;
      browser_active = chromium_ok;
      browser_ready = chromium_ok;
      session = codes "shared";
    })

  abbrev no_browser : HealthResponse
  no_browser = record {
    status = HealthStatus.unhealthy;
    browser_active = false;
    browser_ready = false;
    session = c.session_name;
  }

  abbrev probed_health : G m.Outside HealthResponse
  probed_health = do
    probed ← run_agent_browser m c (codes "session list") (seconds 5) none none
    let active = is_zero probed.exit_code && contains c.session_name probed.stdout
    let status = if is_zero probed.exit_code then HealthStatus.healthy else HealthStatus.degraded
    (λ p. (
      ok (record {
        status = status;
        browser_active = active;
        browser_ready = p.browser_ready;
        session = c.session_name;
      }),
      p,
    ))

  abbrev single_health : G m.Outside HealthResponse
  single_health = do
    available ← ask m.has_agent_browser
    if available then probed_health else pure no_browser

  unfoldable pub health : G m.Outside HealthResponse
  unfolding run_agent_browser starts_with
  health = if c.shared then shared_health else single_health

  -- What `execute_browser` raises is logged.
  unfoldable pub destroy_session : Text → G m.Outside (Unit {0})
  unfolding execute_browser
  destroy_session sandbox_id p =
      (ok tt, (execute_browser m c sandbox_id (codes "close") (seconds 5) p).1)

  -- The answer names the sandbox and says that its session is destroyed.
  unfoldable pub delete_session : Text → G m.Outside (Text × Bool)
  unfolding destroy_session
  delete_session sandbox_id =
      if c.shared
      then (destroy_session sandbox_id >>= λ _. pure (sandbox_id, true))
      else pure (sandbox_id, true)
